-- ===== src/Order/Integers.antt =====
-- `incrementInteger` and `decrementInteger`: the neighbours of an integer part.
use tk.Prelude.{
  ℕ, suc, ◌+◌, ◌-◌, ◌<◌, Bool, true, false, [], ◌∷◌, ◌++◌, Bytes, ◌≡◌, refl, arith, length, all,
  ap₂, ◌==◌, Bool-cases, inl, inr, sym, ap, ◌∙◌, bytes_lt, bytes_lt-cons, bytes_lt-head,
  bytes_lt-heads, and_true, ==_iff, replicate,
}
use tk.Order.Digits.{digit_mono, digit_value_lem, digit-is_digit, digit_value_lt}
use tk.Order.{
  digits_alphabet, index_of, digit_index, is_digit, digit_value, digit, add_carry, increment_digits,
  sub_borrow, decrement_digits,
}

-- What the loop of `incrementInteger` makes of the digits `ds`.
pub record Incremented (ds : Bytes) (r : Bool × Bytes) : Type 0 where
  pub same_length : length r.1 ≡ length ds
  pub digits : all is_digit r.1 ≡ true
  pub greater : r.0 ≡ false → (fa : Bytes) → bytes_lt (ds ++ fa) r.1 ≡ true
  pub greatest :
      r.0 ≡ true
      → (es : Bytes) → all is_digit es ≡ true
      → length es ≡ length ds
      → bytes_lt ds es ≡ false

pub is_digit_zero : is_digit b'0' ≡ true
unfolding digit_index index_of digits_alphabet
is_digit_zero = refl

pub is_digit_last : is_digit b'z' ≡ true
unfolding digit_index index_of digits_alphabet
is_digit_last = refl

-- The last digit is above no digit.
last_greatest :
    (c : ℕ) (ds es : Bytes)
    → is_digit c ≡ true
    → (digit_value c + 1 == 62) ≡ true
    → ((es : Bytes) → all is_digit es ≡ true → length es ≡ length ds → bytes_lt ds es ≡ false)
    → all is_digit es ≡ true
    → length es ≡ length (c ∷ ds)
    → bytes_lt (c ∷ ds) es ≡ false
last_greatest c ds [] hc v top h l = absurd (omega arith)
last_greatest c ds (e ∷ es) hc v top h l =
    let (he, hs) = and_true (is_digit e) _ h in
    elim (Bool-cases (bytes_lt (c ∷ ds) (e ∷ es))) [
      | inr no_lt ↦ no_lt
      | inl lt ↦ elim (bytes_lt-heads c ds e es lt) [
        | inl (_, below) ↦ absurd (ground (arith, top es hs (omega arith)))
        | inr (_, less) ↦
            absurd (ground (arith, digit_value_lt c e hc he less, digit_value_lem e he))
      ]
    ]

step_up :
    (c : ℕ)
    → is_digit c ≡ true
    → (digit_value c + 1 == 62) ≡ false
    → (digit_value c + 1 < 62) × (c < digit (digit_value c + 1))
step_up c h ne =
    let (v, e) = digit_value_lem c h in
    let room : digit_value c + 1 < 62 = ground arith in
    (room, rw e at (digit_mono (digit_value c) (digit_value c + 1) (omega arith) room))

add_carry-Incremented :
    (c : ℕ) (ds : Bytes) (carry : Bool) (ds' : Bytes)
    → is_digit c ≡ true
    → Incremented ds (carry, ds')
    → Incremented (c ∷ ds) (add_carry c (carry, ds'))
unfolding add_carry
add_carry-Incremented c ds false ds' h i = record {
  same_length = ap suc i.same_length;
  digits = ground (arith, i.digits);
  greater = λ _ fa. rw bytes_lt-cons (i.greater refl fa);
  greatest = λ e. cc;
}
add_carry-Incremented c ds true ds' h i = elim (Bool-cases (digit_value c + 1 == 62)) [
  | inl last ↦ rw last (record {
    same_length = ap suc i.same_length;
    digits = ground (arith, i.digits, is_digit_zero);
    greater = λ e. cc;
    greatest = λ _ es. last_greatest c ds es h last (i.greatest refl);
  })
  | inr room ↦
      let (fits, up) = step_up c h room in
      rw room (record {
        same_length = ap suc i.same_length;
        digits = ground (arith, i.digits, digit-is_digit (digit_value c + 1) fits);
        greater = λ _ fa. bytes_lt-head c (digit (digit_value c + 1)) (ds ++ fa) ds' up;
        greatest = λ e. cc;
      })
]

pub increment_digits-Incremented :
    (ds : Bytes) → all is_digit ds ≡ true → Incremented ds (increment_digits ds)
unfolding increment_digits
increment_digits-Incremented [] h = record {
  same_length = refl;
  digits = refl;
  greater = λ e. cc;
  greatest = λ _ es h l. nothing_below es l;
}
  where
    nothing_below : (es : Bytes) → length es ≡ 0 → bytes_lt [] es ≡ false
    nothing_below [] l = unfold bytes_lt in refl
    nothing_below (e ∷ es) l = absurd (omega arith)
increment_digits-Incremented (c ∷ cs) h =
    let (hc, hs) = and_true (is_digit c) _ h in
    let r = increment_digits cs in
    add_carry-Incremented c cs r.0 r.1 hc (increment_digits-Incremented cs hs)

-- What the loop of `decrementInteger` makes of the digits `ds`.
pub record Decremented (ds : Bytes) (r : Bool × Bytes) : Type 0 where
  pub same_length : length r.1 ≡ length ds
  pub digits : all is_digit r.1 ≡ true
  pub less : r.0 ≡ false → (fa : Bytes) → bytes_lt (r.1 ++ fa) ds ≡ true
  pub least : r.0 ≡ true → ds ≡ replicate (length ds) b'0'

value_zero : (c : ℕ) → is_digit c ≡ true → (digit_value c == 0) ≡ true → c ≡ b'0'
value_zero c h e =
    let z : digit 0 ≡ b'0' = unfold digit digits_alphabet in refl in
    sym (digit_value_lem c h).1 ∙ ap digit ((==_iff (digit_value c) 0).0 e) ∙ z

step_down :
    (c : ℕ)
    → is_digit c ≡ true
    → (digit_value c == 0) ≡ false
    → (digit_value c - 1 < 62) × (digit (digit_value c - 1) < c)
step_down c h ne =
    let (v, e) = digit_value_lem c h in
    let below : digit_value c - 1 < digit_value c = ground arith in
    (omega arith, rw e at (digit_mono (digit_value c - 1) (digit_value c) below v))

sub_borrow-Decremented :
    (c : ℕ) (ds : Bytes) (borrow : Bool) (ds' : Bytes)
    → is_digit c ≡ true
    → Decremented ds (borrow, ds')
    → Decremented (c ∷ ds) (sub_borrow c (borrow, ds'))
unfolding sub_borrow
sub_borrow-Decremented c ds false ds' h i = record {
  same_length = ap suc i.same_length;
  digits = ground (arith, i.digits);
  less = λ _ fa. rw bytes_lt-cons (i.less refl fa);
  least = λ e. cc;
}
sub_borrow-Decremented c ds true ds' h i = elim (Bool-cases (digit_value c == 0)) [
  | inl first ↦ rw first (record {
    same_length = ap suc i.same_length;
    digits = ground (arith, i.digits, is_digit_last);
    less = λ e. cc;
    least = λ _. ap₂ (λ x xs. x ∷ xs) (value_zero c h first) (i.least refl);
  })
  | inr room ↦
      let (fits, down) = step_down c h room in
      rw room (record {
        same_length = ap suc i.same_length;
        digits = ground (arith, i.digits, digit-is_digit (digit_value c - 1) fits);
        less = λ _ fa. bytes_lt-head (digit (digit_value c - 1)) c (ds' ++ fa) ds down;
        least = λ e. cc;
      })
]

pub decrement_digits-Decremented :
    (ds : Bytes) → all is_digit ds ≡ true → Decremented ds (decrement_digits ds)
unfolding decrement_digits
decrement_digits-Decremented [] h = record {
  same_length = refl;
  digits = refl;
  less = λ e. cc;
  least = λ _. refl;
}
decrement_digits-Decremented (c ∷ cs) h =
    let (hc, hs) = and_true (is_digit c) _ h in
    let r = decrement_digits cs in
    sub_borrow-Decremented c cs r.0 r.1 hc (decrement_digits-Decremented cs hs)
