-- ===== src/Order/Parts.antt =====
-- A valid key as its integer part and its fraction.
use tk.Prelude.{
  ℕ, suc, ◌+◌, ◌-◌, ◌≤◌, true, false, some, [], ◌∷◌, ◌++◌, Bytes, ◌≡◌, refl, arith, length, all,
  all-append, ltb, Option-cases, inl, inr, ap, ◌∙◌, sym, and_true, take, drop, take-append-drop,
  length-take, take-append, drop-append, length-append, append-nil, ◌&&◌,
}
use tk.Order.Heads.{IsInteger, head-is_digit}
use tk.Order.{
  int_digit_index, is_digit, length_of_index, integer_length, ends_in_zero, valid, integer_part,
}

pub record Parts (k : Bytes) : Type 0 where
  pub top : ℕ
  pub rest : Bytes
  pub fraction : Bytes
  pub splits : k ≡ (top ∷ rest) ++ fraction
  pub integer : IsInteger top rest
  pub digits : all is_digit fraction ≡ true
  pub trimmed : ends_in_zero fraction ≡ false
  pub part_is : integer_part k ≡ top ∷ rest
  pub fraction_is : drop (length (top ∷ rest)) k ≡ fraction

size_suc : (i : ℕ) → length_of_index i ≡ suc (length_of_index i - 1)
unfolding length_of_index
size_suc i = ground arith

-- What `Valid` has checked of a key.
valid_checks :
    (h : ℕ) (t : Bytes)
    → valid (h ∷ t) ≡ true
    → (i : ℕ) × (int_digit_index h ≡ some i)
      × (all is_digit (h ∷ t) ≡ true)
      × (length_of_index i ≤ length (h ∷ t))
      × (ends_in_zero (drop (length_of_index i) (h ∷ t)) ≡ false)
unfolding valid integer_length
valid_checks h t v = elim (Option-cases (int_digit_index h)) [
  | inl e ↦ absurd (ground arith)
  | inr (i, e) ↦ (i, e, ground arith, ground arith, ground arith)
]

pub integer_part-append :
    (h : ℕ) (ds fa : Bytes) → IsInteger h ds → integer_part ((h ∷ ds) ++ fa) ≡ h ∷ ds
unfolding integer_part integer_length
integer_part-append h ds fa n =
    let l : length_of_index n.index ≡ length (h ∷ ds) = omega (arith, n.sized) in
    rw (n.head_at, integer_part, integer_length, l) (take-append (h ∷ ds) fa)

pub valid-Parts : (k : Bytes) → valid k ≡ true → Parts k
valid-Parts [] v = absurd (unfold valid in ground arith)
valid-Parts (h ∷ t) v =
    let (i, at, ds, fits, trimmed) = valid_checks h t v in
    let m : ℕ = length_of_index i - 1 in
    let e : (h ∷ t) ≡ (h ∷ take m t) ++ drop m t = ap (◌∷◌ h) (sym (take-append-drop m t)) in
    let halves : (all is_digit (take m t) && all is_digit (drop m t)) ≡ true =
      sym (all-append is_digit (take m t) (drop m t))
      ∙ ap (all is_digit) (take-append-drop m t)
      ∙ (and_true (is_digit h) _ ds).1 in
    let (front, back) = and_true (all is_digit (take m t)) _ halves in
    let sized : length (take m t) + 1 ≡ length_of_index i =
      omega (arith, length-take m t, size_suc i) in
    let int : IsInteger h (take m t) = record {
      index = i;
      head_at = at;
      digits = front;
      sized = sized;
    } in
    record {
      top = h;
      rest = take m t;
      fraction = drop m t;
      splits = e;
      integer = int;
      digits = back;
      trimmed = rw (size_suc i) at trimmed;
      part_is = rw e (integer_part-append h (take m t) (drop m t) int);
      fraction_is = rw e (drop-append (h ∷ take m t) (drop m t));
    }

-- An integer part with a fraction behind it is a valid key.
pub append-valid :
    (h : ℕ) (ds fa : Bytes)
    → IsInteger h ds
    → all is_digit fa ≡ true
    → ends_in_zero fa ≡ false
    → valid ((h ∷ ds) ++ fa) ≡ true
unfolding valid integer_length
append-valid h ds fa n hf z =
    let l : length_of_index n.index ≡ length (h ∷ ds) = omega (arith, n.sized) in
    let a : all is_digit (h ∷ (ds ++ fa)) ≡ true =
      ground (arith, all-append is_digit ds fa, head-is_digit h n.index n.head_at, n.digits) in
    let room : ltb (length (h ∷ (ds ++ fa))) (length (h ∷ ds)) ≡ false =
      ground (arith, length-append ds fa) in
    let d = drop-append (h ∷ ds) fa in rw (a, n.head_at, valid, integer_length, l, room, d, z) refl

pub integer-valid : (h : ℕ) (ds : Bytes) → IsInteger h ds → valid (h ∷ ds) ≡ true
integer-valid h ds n = rw append-nil at (append-valid h ds [] n refl (unfold ends_in_zero in refl))
