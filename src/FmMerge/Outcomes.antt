-- ===== src/FmMerge/Outcomes.antt =====
-- internal/fmmerge/fmmerge.go: what each outcome of a three-way merge says of its models.
use tk.Prelude.{
  Bool, true, false, ◌&&◌, ◌||◌, not, none, some, Bytes, ◌≡◌, refl, arith, Bool-cases, Option-cases,
  inl, inr, ◌∙◌, ◌⊎◌,
}
use tk.Frontmatter.{Model, key_id, key_created, key_status, key_status_conflict}
use tk.Schema.{Schema, status_known, status_terminal}
use tk.FmMerge.{
  Result, merged, status_conflict, merge_error, merge_status, StatusMerge, StatusResult,
  status_merged, status_error, both_moved, sorted_pair, quiet_status, merge_inherited, merge_scalar,
  merge_changed, or_conflict_error, three_way, three_way_rest, merge_immutable, merged_model,
}

-- Both sides moved to different statuses, of which one is terminal.
abbrev pub in_dispute : Schema → Model → Model → Model → Bool
in_dispute schema base ours theirs =
    both_moved base ours theirs
    && (status_terminal schema ours.status || status_terminal schema theirs.status)

-- A status that both sides moved apart is known on both.
abbrev pub moves_known : Schema → Model → Model → Model → Bool
moves_known schema base ours theirs =
    not (both_moved base ours theirs)
    || (status_known schema ours.status && status_known schema theirs.status)

-- A reason to fail closed, by the key that the error names.
pub data Refusal (schema : Schema) (base ours theirs : Model) : Bytes → Type 0 where
  by_id : merge_immutable base.id ours.id theirs.id ≡ none → Refusal schema base ours theirs key_id
  by_created :
      merge_immutable base.created ours.created theirs.created ≡ none
      → Refusal schema base ours theirs key_created
  by_status :
      both_moved base ours theirs ≡ true
      → (status_known schema ours.status && status_known schema theirs.status) ≡ false
      → Refusal schema base ours theirs key_status
  by_pair :
      merge_inherited base.status_conflict ours.status_conflict theirs.status_conflict ≡ none
      → Refusal schema base ours theirs key_status_conflict

-- What a merge says of the status. A dispute has both sides moved to known statuses, one of them terminal, and
-- keeps the base status and its time; a merge without a dispute has no such move and no move to an unknown status.
abbrev pub Explained : Schema → Model → Model → Model → Result → Type 0
Explained schema base ours theirs (merged m warnings) =
    (in_dispute schema base ours theirs ≡ false)
    × (moves_known schema base ours theirs ≡ true)
    × ((m.status ≡ ours.status) ⊎ (m.status ≡ theirs.status))
Explained schema base ours theirs (status_conflict m pair warnings) =
    (in_dispute schema base ours theirs ≡ true)
    × (status_known schema ours.status ≡ true)
    × (status_known schema theirs.status ≡ true)
    × (m.status ≡ base.status)
    × (m.changed ≡ base.changed)
    × (m.status_conflict ≡ pair)
    × (pair ≡ sorted_pair ours.status theirs.status)
Explained schema base ours theirs (merge_error key) = Refusal schema base ours theirs key
Explained schema base ours theirs r = ⊥

-- The same of the status alone.
abbrev ExplainedStatus : Schema → Model → Model → Model → StatusResult → Type 0
ExplainedStatus schema base ours theirs (status_error key) = Refusal schema base ours theirs key
ExplainedStatus schema base ours theirs (status_merged st) =
    (in_dispute schema base ours theirs ≡ st.dispute)
    × (moves_known schema base ours theirs ≡ true)
    × (st.dispute ≡ false → (st.status ≡ ours.status) ⊎ (st.status ≡ theirs.status))
    × (st.dispute ≡ true
        → (st.status ≡ base.status) × (st.conflict ≡ sorted_pair ours.status theirs.status))

merge_scalar-sides :
    (w : Bool) (base ours theirs : Bytes)
    → (merge_scalar w base ours theirs ≡ ours) ⊎ (merge_scalar w base ours theirs ≡ theirs)
unfolding merge_scalar
merge_scalar-sides w base ours theirs = ground arith

quiet_status-Explained :
    (schema : Schema) (w : Bool) (base ours theirs : Model)
    → in_dispute schema base ours theirs ≡ false
    → moves_known schema base ours theirs ≡ true
    → ExplainedStatus schema base ours theirs (or_conflict_error (quiet_status w base ours theirs))
unfolding quiet_status
quiet_status-Explained schema w base ours theirs quiet moved =
    elim (Option-cases
      (merge_inherited base.status_conflict ours.status_conflict theirs.status_conflict)) [
        | inl e ↦ rw e (by_pair e)
        | inr (sc, e) ↦ rw e (
          quiet,
          moved,
          (λ h. merge_scalar-sides w base.status ours.status theirs.status),
          λ h. absurd (ground arith),
        )
      ]

merge_status-Explained :
    (schema : Schema) (w : Bool) (base ours theirs : Model)
    → ExplainedStatus schema base ours theirs (merge_status schema w base ours theirs)
unfolding merge_status
merge_status-Explained schema w base ours theirs = elim (Bool-cases (both_moved base ours theirs)) [
  | inr e ↦ rw e (quiet_status-Explained schema w base ours theirs (ground arith) (ground arith))
  | inl e ↦
      elim (Bool-cases (status_known schema ours.status && status_known schema theirs.status)) [
        | inr k ↦
            let unknown : (not (status_known schema ours.status)
                  || not (status_known schema theirs.status))
                ≡ true =
              ground arith in
            rw (e, unknown) (by_status e k)
        | inl k ↦
            let known : (not (status_known schema ours.status)
                  || not (status_known schema theirs.status))
                ≡ false =
              ground arith in
            elim (Bool-cases
              (status_terminal schema ours.status || status_terminal schema theirs.status)) [
                | inl t ↦
                    rw (e, known, t)
                      (ground arith, ground arith, (λ h. absurd (ground arith)), λ h. (refl, refl))
                | inr t ↦
                    rw (e, known, t)
                      (quiet_status-Explained schema w base ours theirs (ground arith)
                        (ground arith))
              ]
      ]
]

outcome_of-Explained :
    (schema : Schema) (w : Bool) (base ours theirs : Model) (i c : Bytes × Bool) (st : StatusMerge)
    → ExplainedStatus schema base ours theirs (status_merged st)
    → Explained schema base ours theirs
        (three_way_rest schema w base ours theirs (some i) (some c) (status_merged st))
unfolding three_way_rest merged_model merge_changed
outcome_of-Explained schema w base ours theirs i c st (due, known, calm, stays) =
    elim (Bool-cases st.dispute) [
      | inl e ↦
          let (s, p) = stays e in
          let known_ours : status_known schema ours.status ≡ true = ground (arith, due, known, e) in
          let known_theirs : status_known schema theirs.status ≡ true =
            ground (arith, due, known, e) in
          rw e (due ∙ e, known_ours, known_theirs, s, refl, refl, p)
      | inr e ↦ rw e (due ∙ e, known, calm e)
    ]

-- Where a three-way merge ends in a dispute, both sides moved the status apart to known statuses of which
-- one is terminal; the base status and its time stay and the pair is recorded, sorted. Where it ends clean,
-- they did not, nor apart to an unknown status, and the status is that of a side. An error has one of the
-- four reasons to fail closed. There is no other outcome.
pub three_way-Explained :
    (schema : Schema) (ours_wins : Bool) (base ours theirs : Model)
    → Explained schema base ours theirs (three_way schema ours_wins base ours theirs)
unfolding three_way three_way_rest
three_way-Explained schema w base ours theirs =
    elim (Option-cases (merge_immutable base.id ours.id theirs.id)) [
      | inl e ↦ rw e (by_id e)
      | inr (i, e) ↦
          elim (Option-cases (merge_immutable base.created ours.created theirs.created)) [
            | inl f ↦ rw (e, f) (by_created f)
            | inr (c, f) ↦
                rw (e, f)
                  (status_end schema w base ours theirs i c (merge_status schema w base ours theirs)
                    (merge_status-Explained schema w base ours theirs))
          ]
    ]
  where
    status_end :
        (schema : Schema) (w : Bool) (base ours theirs : Model) (i c : Bytes × Bool)
        (r : StatusResult)
        → ExplainedStatus schema base ours theirs r
        → Explained schema base ours theirs
            (three_way_rest schema w base ours theirs (some i) (some c) r)
    status_end schema w base ours theirs i c (status_merged st) x =
        outcome_of-Explained schema w base ours theirs i c st x
    status_end schema w base ours theirs i c (status_error k) x = x
