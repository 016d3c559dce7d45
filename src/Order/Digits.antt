-- ===== src/Order/Digits.antt =====
-- The two alphabets of order.go as strictly increasing tables.
use tk.Prelude.{
  ℕ, zero, suc, ◌+◌, ◌<◌, Bool, true, Option, none, some, [], ◌∷◌, Bytes, refl, arith, length,
  get_or, ltb, ◌==◌, all_below, all_below_sound, Option-cases, ◌-◌, inl, inr, ◌≡◌, sym, ap, ◌∙◌,
}
use native.Mathlib.Decide.{dec_lt}
use tk.Order.{
  digits_alphabet, int_digits_alphabet, index_of, digit_index, int_digit_index, digit_value, digit,
  head, is_digit,
}

-- A position that the table gives is within it and holds the byte.
index_of-some :
    (c : ℕ) (xs : Bytes) (i : ℕ) → index_of c xs ≡ some i → (i < length xs) × (get_or xs i 0 ≡ c)
unfolding index_of
index_of-some c [] i h = absurd (ground arith)
index_of-some c (x ∷ xs) zero h = ground (arith, index_of-some c xs 0)
index_of-some c (x ∷ xs) (suc i) h = ground (arith, index_of-some c xs i)

pub digit_index-some : (c i : ℕ) → digit_index c ≡ some i → (i < 62) × (digit i ≡ c)
unfolding digit_index digit digits_alphabet
digit_index-some c i h = index_of-some c digits_alphabet i h

pub int_digit_index-some : (c i : ℕ) → int_digit_index c ≡ some i → (i < 52) × (head i ≡ c)
unfolding int_digit_index head int_digits_alphabet
int_digit_index-some c i h = index_of-some c int_digits_alphabet i h

abbrev has_index : Option ℕ → ℕ → Bool
has_index none i = ◌==◌ 0 1
has_index (some j) i = j == i

has_index_lem : (o : Option ℕ) (i : ℕ) → has_index o i ≡ true → o ≡ some i
has_index_lem none i h = absurd (ground arith)
has_index_lem (some j) i h = ground arith

digit_table : all_below 62 (λ i. has_index (digit_index (digit i)) i) ≡ true
unfolding all_below digit_index digit digits_alphabet index_of
digit_table = refl

pub digit_index-digit : (i : ℕ) → i < 62 → digit_index (digit i) ≡ some i
digit_index-digit i h = has_index_lem _ i (all_below_sound 62 _ i digit_table h)

head_table : all_below 52 (λ i. has_index (int_digit_index (head i)) i) ≡ true
unfolding all_below int_digit_index head int_digits_alphabet index_of
head_table = refl

pub int_digit_index-head : (i : ℕ) → i < 52 → int_digit_index (head i) ≡ some i
int_digit_index-head i h = has_index_lem _ i (all_below_sound 52 _ i head_table h)

-- Each entry of a table is below the next.
digit_step_table : all_below 61 (λ i. ltb (digit i) (digit (i + 1))) ≡ true
unfolding all_below digit digits_alphabet
digit_step_table = refl

head_step_table : all_below 51 (λ i. ltb (head i) (head (i + 1))) ≡ true
unfolding all_below head int_digits_alphabet
head_step_table = refl

digit_step : (i : ℕ) → i < 61 → digit i < digit (i + 1)
digit_step i h =
    ground (arith, all_below_sound 61 (λ i. ltb (digit i) (digit (i + 1))) i digit_step_table h)

head_step : (i : ℕ) → i < 51 → head i < head (i + 1)
head_step i h =
    ground (arith, all_below_sound 51 (λ i. ltb (head i) (head (i + 1))) i head_step_table h)

digit_mono_add : (k i : ℕ) → i + suc k < 62 → digit i < digit (i + suc k)
digit_mono_add zero i h = digit_step i (omega arith)
digit_mono_add (suc k) i h =
    let up : digit (i + suc k) < digit (i + suc k + 1) = digit_step (i + suc k) (omega arith) in
    let e : i + suc (suc k) ≡ i + suc k + 1 = omega arith in
    rw e (omega (arith, digit_mono_add k i (omega arith)))

head_mono_add : (k i : ℕ) → i + suc k < 52 → head i < head (i + suc k)
head_mono_add zero i h = head_step i (omega arith)
head_mono_add (suc k) i h =
    let up : head (i + suc k) < head (i + suc k + 1) = head_step (i + suc k) (omega arith) in
    let e : i + suc (suc k) ≡ i + suc k + 1 = omega arith in
    rw e (omega (arith, head_mono_add k i (omega arith)))

-- The rank of a byte and its place in ASCII agree.
pub digit_mono : (i j : ℕ) → i < j → j < 62 → digit i < digit j
digit_mono i j h k =
    let e : j ≡ i + suc (j - i - 1) = omega arith in
    rw e (digit_mono_add (j - i - 1) i (omega arith))

pub head_mono : (i j : ℕ) → i < j → j < 52 → head i < head j
head_mono i j h k =
    let e : j ≡ i + suc (j - i - 1) = omega arith in
    rw e (head_mono_add (j - i - 1) i (omega arith))

pub digit_value_lem :
    (c : ℕ) → is_digit c ≡ true → (digit_value c < 62) × (digit (digit_value c) ≡ c)
unfolding digit_value
digit_value_lem c h = elim (Option-cases (digit_index c)) [
  | inl e ↦ absurd (ground arith)
  | inr (i, e) ↦ rw (e, digit_value) (digit_index-some c i e)
]

pub digit-is_digit : (i : ℕ) → i < 62 → is_digit (digit i) ≡ true
digit-is_digit i h = rw (digit_index-digit i h)

pub digit_value-digit : (i : ℕ) → i < 62 → digit_value (digit i) ≡ i
unfolding digit_value
digit_value-digit i h = rw (digit_index-digit i h, digit_value)

-- For two digits the bytes compare as their values do.
pub digit_value_lt :
    (c d : ℕ) → is_digit c ≡ true → is_digit d ≡ true → c < d → digit_value c < digit_value d
digit_value_lt c d hc hd h =
    let (vc, ec) = digit_value_lem c hc in
    let (vd, ed) = digit_value_lem d hd in
    elim (dec_lt (digit_value d) (digit_value c)) [
      | yes p ↦ absurd (omega (arith, digit_mono _ _ p vc))
      | no p ↦ elim (dec_lt (digit_value c) (digit_value d)) [
        | yes q ↦ q
        | no q ↦
            let e : digit_value c ≡ digit_value d = omega arith in
            let f : c ≡ d = sym ec ∙ ap digit e ∙ ed in absurd (omega arith)
      ]
    ]
