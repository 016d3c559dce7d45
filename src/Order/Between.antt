-- ===== src/Order/Between.antt =====
-- `KeyBetween`: the key that it returns sorts strictly between its bounds, and its errors.
use tk.Prelude.{
  true, false, none, some, [], ◌∷◌, Bytes, ◌≡◌, ◌≢◌, refl, arith, ◌⊎◌, inl, inr, sym, Bool-cases,
  bytes_eq, bytes_eq_iff, bytes_lt, bytes_lt_irrefl, bytes_lt_asymm, bytes_lt_total, subst, ◌∙◌,
}
use tk.Order.Cases.{
  after_parts-Between, before_parts-Between, amid_parts-Between, bytes_lt-nil_of_valid,
}
use tk.Order.Parts.{valid-Parts}
use tk.Order.{
  valid, smallest_integer, integer_zero, Error, invalid_key, equal_keys, unordered_bounds,
  exhausted, Result, ok, err, dispatch, check_open, check_pair, validate_bound, key_between,
  digit_index, index_of, digits_alphabet, integer_length, int_digit_index, int_digits_alphabet,
  length_of_index, ends_in_zero,
}

-- A bound that `KeyBetween` takes: open, or a valid key other than the smallest integer.
abbrev pub IsBound : Bytes → Type 0
IsBound [] = Unit
IsBound (c ∷ cs) = (valid (c ∷ cs) ≡ true) × (c ∷ cs ≢ smallest_integer)

-- Two bounds that are not open are in order.
abbrev pub InOrder : Bytes → Bytes → Type 0
InOrder [] b = Unit
InOrder (c ∷ cs) [] = Unit
InOrder (c ∷ cs) (d ∷ ds) = bytes_lt (c ∷ cs) (d ∷ ds) ≡ true

abbrev pub Under : Bytes → Bytes → Type 0
Under k [] = Unit
Under k (d ∷ ds) = bytes_lt k (d ∷ ds) ≡ true

-- A successful result: a valid key strictly between the bounds.
abbrev pub Between : Bytes → Bytes → Result Bytes → Type 0
Between a b r = (k : Bytes) × (r ≡ ok k) × (valid k ≡ true) × (bytes_lt a k ≡ true) × Under k b

integer_zero-valid : valid integer_zero ≡ true
unfolding valid digit_index index_of digits_alphabet integer_length int_digit_index
    int_digits_alphabet length_of_index ends_in_zero
integer_zero-valid = refl

dispatch-Between : (a b : Bytes) → IsBound a → IsBound b → InOrder a b → Between a b (dispatch a b)
unfolding dispatch
dispatch-Between [] [] ha hb o =
    (integer_zero, refl, integer_zero-valid, unfold bytes_lt in refl, tt)
dispatch-Between [] (d ∷ ds) ha (vb, nb) o =
    let p = valid-Parts (d ∷ ds) vb in
    let (k, e, v, down) = before_parts-Between (d ∷ ds) p nb in
    rw (p.part_is, p.fraction_is) (k, e, v, bytes_lt-nil_of_valid k v, down)
dispatch-Between (c ∷ cs) [] (va, na) hb o =
    let p = valid-Parts (c ∷ cs) va in
    let (k, e, v, up) = after_parts-Between (c ∷ cs) p in
    rw (p.part_is, p.fraction_is) (k, e, v, up, tt)
dispatch-Between (c ∷ cs) (d ∷ ds) (va, na) (vb, nb) o =
    let p = valid-Parts (c ∷ cs) va in
    let q = valid-Parts (d ∷ ds) vb in
    rw (p.part_is, p.fraction_is, q.part_is, q.fraction_is)
      (amid_parts-Between (c ∷ cs) (d ∷ ds) p q o)

pub check_open-none : (a : Bytes) → IsBound a → check_open a ≡ none
unfolding check_open validate_bound
check_open-none [] h = refl
check_open-none (c ∷ cs) (v, ne) = elim (Bool-cases (bytes_eq (c ∷ cs) smallest_integer)) [
  | inl e ↦ absurd (ne ((bytes_eq_iff _ _).0 e))
  | inr e ↦ rw (v, e) refl
]

pub check_pair-none : (a b : Bytes) → InOrder a b → check_pair a b ≡ none
unfolding check_pair
check_pair-none [] b o = refl
check_pair-none (c ∷ cs) [] o = refl
check_pair-none (c ∷ cs) (d ∷ ds) o = elim (Bool-cases (bytes_eq (c ∷ cs) (d ∷ ds))) [
  | inl e ↦ absurd (
      let same : (c ∷ cs) ≡ (d ∷ ds) = (bytes_eq_iff _ _).0 e in
      let lt : bytes_lt (d ∷ ds) (d ∷ ds) ≡ true = rw same at o in
      ground (arith, bytes_lt_irrefl (d ∷ ds)))
  | inr e ↦ rw (e, bytes_lt_asymm (c ∷ cs) (d ∷ ds) o) refl
]

-- For two bounds, each open or a valid key that is not the smallest integer, in order if neither is
-- open, `KeyBetween` returns a valid key that sorts strictly after the left bound and, unless the
-- right bound is open, strictly before it.
pub key_between-Between :
    (a b : Bytes) → IsBound a → IsBound b → InOrder a b → Between a b (key_between a b)
unfolding key_between
key_between-Between a b ha hb o =
    rw (check_open-none a ha, check_open-none b hb, check_pair-none a b o)
      (dispatch-Between a b ha hb o)

-- Why a call is refused, by its error.
abbrev pub Refused : Bytes → Bytes → Error → Type 0
Refused a b invalid_key = ((a ≢ []) × (valid a ≡ false)) ⊎ ((b ≢ []) × (valid b ≡ false))
Refused a b equal_keys = (a ≡ b) × (a ≢ [])
Refused a b unordered_bounds = (b ≢ []) × (bytes_lt b a ≡ true)
Refused a b exhausted = (a ≡ smallest_integer) ⊎ (b ≡ smallest_integer)

-- What `validateBound` finds of a bound.
pub data Found (a : Bytes) : Type 0 where
  sound : IsBound a → Found a
  invalid : check_open a ≡ some invalid_key → a ≢ [] → valid a ≡ false → Found a
  smallest : check_open a ≡ some exhausted → a ≡ smallest_integer → Found a

pub found : (a : Bytes) → Found a
unfolding check_open validate_bound
found [] = sound tt
found (c ∷ cs) = elim (Bool-cases (valid (c ∷ cs))) [
  | inr bad ↦ invalid (rw bad refl) (λ e. cc) bad
  | inl good ↦ elim (Bool-cases (bytes_eq (c ∷ cs) smallest_integer)) [
    | inl least ↦ smallest (rw (good, least) refl) ((bytes_eq_iff _ _).0 least)
    | inr other ↦ sound (good, λ e. ground (arith, bytes_eq_iff (c ∷ cs) smallest_integer))
  ]
]

Refused-err :
    (a b : Bytes) {d e : Error}
    → ◌≡◌ {A = Result Bytes} (err d) (err e)
    → Refused a b d
    → Refused a b e
Refused-err a b h r = subst (Refused a b) (cc) r

-- How two bounds stand: in order, or refused by the comparison.
pub data Compared (a b : Bytes) : Type 0 where
  ordered : InOrder a b → Compared a b
  unordered : (d : Error) → check_pair a b ≡ some d → Refused a b d → Compared a b

pub compared : (a b : Bytes) → Compared a b
unfolding check_pair
compared [] b = ordered tt
compared (c ∷ cs) [] = ordered tt
compared (c ∷ cs) (d ∷ ds) = elim (Bool-cases (bytes_eq (c ∷ cs) (d ∷ ds))) [
  | inl e ↦ unordered equal_keys (rw e refl) ((bytes_eq_iff _ _).0 e, λ q. cc)
  | inr ne ↦ elim (Bool-cases (bytes_lt (d ∷ ds) (c ∷ cs))) [
    | inl e ↦ unordered unordered_bounds (rw (ne, e) refl) (λ q. cc, e)
    | inr no_gt ↦ elim (Bool-cases (bytes_lt (c ∷ cs) (d ∷ ds))) [
      | inl lt ↦ ordered lt
      | inr no_lt ↦
          let same = bytes_lt_total (c ∷ cs) (d ∷ ds) no_lt no_gt in
          absurd (ground (arith, bytes_eq_iff (c ∷ cs) (d ∷ ds)))
    ]
  ]
]

-- Each error that `KeyBetween` returns has its reason: `ErrInvalidKey` a bound that is not open and
-- not valid, `ErrEqualKeys` two equal bounds, `ErrUnorderedBounds` a right bound that sorts before
-- the left one, and `ErrExhausted` a bound that is the smallest integer. So the rank space never runs
-- out between two other keys.
pub key_between-Refused : (a b : Bytes) {e : Error} → key_between a b ≡ err e → Refused a b e
unfolding key_between
key_between-Refused a b h = elim (found a) [
  | invalid c ne bad ↦ Refused-err a b (rw c at h) (inl (ne, bad))
  | smallest c least ↦ Refused-err a b (rw c at h) (inl least)
  | sound ha ↦ elim (found b) [
    | invalid c ne bad ↦ Refused-err a b (rw (check_open-none a ha, c) at h) (inr (ne, bad))
    | smallest c least ↦ Refused-err a b (rw (check_open-none a ha, c) at h) (inr least)
    | sound hb ↦ elim (compared a b) [
      | unordered d c r ↦
          Refused-err a b (rw (check_open-none a ha, check_open-none b hb, c) at h) r
      | ordered o ↦ let r = key_between-Between a b ha hb o in absurd (cc (sym h ∙ r.1))
    ]
  ]
]
