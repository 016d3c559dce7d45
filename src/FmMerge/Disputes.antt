-- ===== src/FmMerge/Disputes.antt =====
-- internal/fmmerge/fmmerge.go: the merge of the status with its sides swapped.
use tk.Prelude.{
  Bool, true, not, List, [], ◌∷◌, Bytes, ◌≡◌, refl, arith, bytes_eq_iff, bytes_lt_asymm,
  bytes_lt_total, ap₂,
}
use tk.Frontmatter.{Model}
use tk.Schema.{Schema}
use tk.FmMerge.{
  merge_status, StatusMerge, both_moved, sorted_pair, quiet_status, quiet_of, merge_inherited,
  merge_changed, equal_seq,
}
use tk.FmMerge.Scalars.{bytes_eq_comm, merge_scalar_swap}

equal_seq_iff : (a b : List Bytes) → equal_seq a b ≡ true → a ≡ b
unfolding equal_seq
equal_seq_iff [] [] h = refl
equal_seq_iff [] (y ∷ b) h = absurd (ground arith)
equal_seq_iff (x ∷ a) [] h = absurd (ground arith)
equal_seq_iff (x ∷ a) (y ∷ b) h = ground (arith, bytes_eq_iff x y, equal_seq_iff a b)

equal_seq_comm : (a b : List Bytes) → equal_seq a b ≡ equal_seq b a
unfolding equal_seq
equal_seq_comm [] [] = refl
equal_seq_comm [] (y ∷ b) = refl
equal_seq_comm (x ∷ a) [] = refl
equal_seq_comm (x ∷ a) (y ∷ b) = ground (arith, bytes_eq_comm x y, equal_seq_comm a b)

merge_inherited_swap :
    (base ours theirs : List Bytes)
    → merge_inherited base theirs ours ≡ merge_inherited base ours theirs
unfolding merge_inherited
merge_inherited_swap base ours theirs =
    ground (arith, equal_seq_comm ours theirs, equal_seq_iff ours theirs)

sorted_pair_swap : (a b : Bytes) → sorted_pair b a ≡ sorted_pair a b
unfolding sorted_pair
sorted_pair_swap a b = ground (arith, bytes_lt_asymm a b, bytes_lt_total a b)

quiet_status_swap :
    (w : Bool) (base ours theirs : Model)
    → quiet_status (not w) base theirs ours ≡ quiet_status w base ours theirs
unfolding quiet_status
quiet_status_swap w base ours theirs =
    ap₂ quiet_of (merge_scalar_swap w base.status ours.status theirs.status)
      (merge_inherited_swap base.status_conflict ours.status_conflict theirs.status_conflict)

-- Swapping the two sides, with the answer of the tie-break, does not change what the status merges to,
-- whether that is a status, a dispute or an error.
pub merge_status_swap :
    (schema : Schema) (w : Bool) (base ours theirs : Model)
    → merge_status schema (not w) base theirs ours ≡ merge_status schema w base ours theirs
unfolding merge_status both_moved
merge_status_swap schema w base ours theirs =
    rw (quiet_status_swap w base ours theirs, sorted_pair_swap ours.status theirs.status)
      (ground (arith, bytes_eq_comm ours.status theirs.status))

-- The same for the time of the last status change.
pub merge_changed_swap :
    (w : Bool) (base ours theirs : Model) (st : StatusMerge)
    → merge_changed (not w) base theirs ours st ≡ merge_changed w base ours theirs st
unfolding merge_changed
merge_changed_swap w base ours theirs st = ground (
  arith,
  bytes_eq_comm ours.status theirs.status,
  bytes_eq_comm ours.changed theirs.changed,
  bytes_eq_iff ours.status theirs.status,
  bytes_eq_iff ours.changed theirs.changed,
  bytes_eq_iff st.status ours.status,
  bytes_eq_iff st.status theirs.status,
)
