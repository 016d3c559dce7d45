-- ===== src/FmMerge/Lists.antt =====
-- internal/fmmerge/fmmerge.go: the set merge of lists.
use tk.Prelude.{
  Bool, ◌&&◌, ◌||◌, not, List, [], ◌∷◌, ◌++◌, Bytes, ◌≡◌, arith, bytes_eq, bytes_eq_iff,
  bytes_eq_refl, contains, contains-append, Bool-cases, inl, inr, if◌then◌else◌,
}
use tk.FmMerge.{add_new, merge_list}

contains-add_new :
    (w : Bytes → Bool) (out es : List Bytes) (e : Bytes)
    → contains (add_new w out es) e ≡ (contains out e || (contains es e && w e))
unfolding add_new contains
contains-add_new w out [] e = ground arith
contains-add_new w out (x ∷ es) e =
    let left = contains-add_new w out es e in
    elim (Bool-cases (bytes_eq x e)) [
      | inl h ↦
          let took = contains-add_new w (out ++ e ∷ []) es e in
          let joined = contains-append out (e ∷ []) e in
          rw ((bytes_eq_iff x e).0 h) (ground (arith, took, left, joined, bytes_eq_refl e))
      | inr h ↦
          let took = contains-add_new w (out ++ x ∷ []) es e in
          let joined = contains-append out (x ∷ []) e in ground (arith, took, left, joined)
    ]

-- An element of the base is in the merged list exactly when both sides still have it, and any other
-- element exactly when a side has it.
pub contains-merge_list :
    (base ours theirs : List Bytes) (e : Bytes)
    → contains (merge_list base ours theirs) e ≡ (
        if contains base e
        then contains ours e && contains theirs e
        else contains ours e || contains theirs e)
unfolding merge_list contains
contains-merge_list base ours theirs e =
    let both : Bytes → Bool = λ x. contains ours x && contains theirs x in
    let new : Bytes → Bool = λ x. not (contains base x) in
    let kept : List Bytes = add_new both [] base in
    let with_ours : List Bytes = add_new new kept ours in
    rw (contains-add_new new with_ours theirs e)
      (rw (contains-add_new new kept ours e) (rw (contains-add_new both [] base e) (ground arith)))
