-- ===== src/Order/Unroll.antt =====
-- The recursion of `midpoint` as the code writes it, over the common prefix.
use tk.Prelude.{
  ℕ, zero, suc, ◌≤◌, [], ◌∷◌, ◌++◌, Bytes, ◌≡◌, refl, arith, length, take, drop, ltb, leb, ◌==◌,
  Bool-cases, inl, inr, ap, sym, ◌∙◌, if◌then◌else◌,
}
use tk.Order.{slice_from, common_prefix, midpoint_at, midpoint_open, midpoint, first_value}

drop_all : (s : Bytes) (n : ℕ) → length s ≤ n → drop n s ≡ []
drop_all [] zero h = refl
drop_all [] (suc n) h = refl
drop_all (c ∷ s) zero h = absurd (omega arith)
drop_all (c ∷ s) (suc n) h = drop_all s n (omega arith)

drop_nil : (n : ℕ) → drop {A = ℕ} n [] ≡ []
drop_nil zero = refl
drop_nil (suc n) = refl

slice_from-drop : (s : Bytes) (n : ℕ) → slice_from s n ≡ drop n s
unfolding slice_from
slice_from-drop s n = elim (Bool-cases (leb (length s) n)) [
  | inl e ↦ rw e (sym (drop_all s n (ground arith)))
  | inr e ↦ rw e
]

strip_prefix :
    (a b : Bytes)
    → midpoint a b
      ≡ take (common_prefix a b) b
        ++ midpoint (drop (common_prefix a b) a) (drop (common_prefix a b) b)
unfolding midpoint common_prefix
strip_prefix a [] = refl
strip_prefix [] (d ∷ ds) = elim (Bool-cases (b'0' == d)) [
  | inl e ↦ rw e (
      ap (◌∷◌ d) (
        strip_prefix [] ds
        ∙ rw (drop_nil (common_prefix [] ds), drop_nil (suc (common_prefix [] ds))) refl))
  | inr e ↦ rw e (rw e refl)
]
strip_prefix (c ∷ cs) (d ∷ ds) = elim (Bool-cases (c == d)) [
  | inl e ↦ rw e (ap (◌∷◌ d) (strip_prefix cs ds))
  | inr e ↦ rw e (rw e refl)
]

no_prefix :
    (a b : Bytes) → common_prefix a b ≡ 0 → midpoint a b ≡ midpoint_at a b (midpoint (drop 1 a) [])
unfolding midpoint common_prefix
no_prefix [] [] h = unfold midpoint_open midpoint_at first_value in refl
no_prefix (c ∷ cs) [] h = unfold midpoint_open in refl
no_prefix [] (d ∷ ds) h = elim (Bool-cases (b'0' == d)) [
  | inl e ↦ absurd (ground arith)
  | inr e ↦ rw e refl
]
no_prefix (c ∷ cs) (d ∷ ds) h = elim (Bool-cases (c == d)) [
  | inl e ↦ absurd (ground arith)
  | inr e ↦ rw e refl
]

-- `midpoint(a, b)` is what the code computes: the common prefix and the midpoint of what is left,
-- or, with no common prefix, the digit step over `midpoint(sliceFrom(a, 1), "")`.
pub midpoint_unroll :
    (a b : Bytes)
    → midpoint a b ≡ (
        let n = common_prefix a b in
        if ltb 0 n
        then take n b ++ midpoint (slice_from a n) (drop n b)
        else midpoint_at a b (midpoint (slice_from a 1) []))
midpoint_unroll a b = elim (Bool-cases (ltb 0 (common_prefix a b))) [
  | inl e ↦ rw e (rw (slice_from-drop a (common_prefix a b)) (strip_prefix a b))
  | inr e ↦ rw e (rw (slice_from-drop a 1) (no_prefix a b (ground arith)))
]
