-- ===== src/FmMerge/Statuses.antt =====
-- internal/fmmerge/fmmerge.go: the merge of the status, of its conflict and of its time.
use tk.Prelude.{
  Bool, true, false, ◌&&◌, ◌||◌, not, Option, none, some, List, Bytes, bytes_eq, if◌then◌else◌,
}
use tk.Frontmatter.{Model, key_status, key_status_conflict}
use tk.Schema.{Schema, status_known, status_terminal}
use tk.FmMerge.Values.{merge_inherited, merge_scalar, sorted_pair}

pub record StatusMerge : Type 0 where
  pub status : Bytes
  pub conflict : List Bytes
  pub dispute : Bool

-- The end of both quiet branches of `mergeStatus`.
abbrev pub quiet_of : Bytes → Option (List Bytes) → Option StatusMerge
quiet_of status none = none
quiet_of status (some sc) = some (record { status = status; conflict = sc; dispute = false })

unfoldable pub quiet_status : Bool → Model → Model → Model → Option StatusMerge
unfolding merge_inherited merge_scalar
quiet_status ours_wins base ours theirs =
    quiet_of (merge_scalar ours_wins base.status ours.status theirs.status)
      (merge_inherited base.status_conflict ours.status_conflict theirs.status_conflict)

unfoldable pub both_moved : Model → Model → Model → Bool
both_moved base ours theirs =
    not (bytes_eq ours.status base.status)
    && not (bytes_eq theirs.status base.status)
    && not (bytes_eq ours.status theirs.status)

-- `mergeStatus`; an error carries its key.
pub data StatusResult : Type 0 where
  status_merged : StatusMerge → StatusResult
  status_error : Bytes → StatusResult

abbrev pub or_conflict_error : Option StatusMerge → StatusResult
or_conflict_error none = status_error key_status_conflict
or_conflict_error (some s) = status_merged s

unfoldable pub merge_status : Schema → Bool → Model → Model → Model → StatusResult
unfolding quiet_status both_moved sorted_pair
merge_status schema ours_wins base ours theirs =
    if both_moved base ours theirs
    then if not (status_known schema ours.status) || not (status_known schema theirs.status)
      then status_error key_status
      else if status_terminal schema ours.status || status_terminal schema theirs.status
      then status_merged (record {
        status = base.status;
        conflict = sorted_pair ours.status theirs.status;
        dispute = true;
      })
      else or_conflict_error (quiet_status ours_wins base ours theirs)
    else or_conflict_error (quiet_status ours_wins base ours theirs)

-- `mergeChanged`
unfoldable pub merge_changed : Bool → Model → Model → Model → StatusMerge → Bytes
merge_changed ours_wins base ours theirs st =
    if st.dispute
    then base.changed
    else let ours_moved = not (bytes_eq ours.status base.status) in
      let theirs_moved = not (bytes_eq theirs.status base.status) in
      if not ours_moved && not theirs_moved
      then base.changed
      else if ours_moved && not theirs_moved
      then ours.changed
      else if not ours_moved && theirs_moved
      then theirs.changed
      else if bytes_eq ours.status theirs.status
      then if bytes_eq ours.changed theirs.changed
        then ours.changed
        else if ours_wins
        then ours.changed
        else theirs.changed
      else if bytes_eq st.status ours.status
      then ours.changed
      else if bytes_eq st.status theirs.status
      then theirs.changed
      else base.changed
