-- ===== src/Order/Midpoint.antt =====
-- `midpoint`: the fractions that it returns, and their place between the bounds.
use native.Mathlib.Decide.{dec_lt}
use tk.Prelude.{
  ℕ, ◌+◌, ◌-◌, ◌/◌, ◌<◌, true, false, [], ◌∷◌, Bytes, ◌≡◌, ◌≢◌, refl, arith, length, all, ltb, ◌==◌,
  Bool-cases, inl, inr, sym, ap, ◌∙◌, bytes_lt, and_true, ltb→lt, ==_iff, ◌==◌, bytes_lt-cons,
  bytes_lt-head, bytes_lt-heads,
}
use tk.Order.Digits.{digit_mono, digit_value_lem, digit-is_digit, digit_value-digit, digit_value_lt}
use tk.Order.{
  digits_alphabet, is_digit, digit_value, digit, ends_in_zero, first_value, midpoint_at,
  midpoint_open, midpoint,
}

-- A fraction part of a key that is not empty: digits, the last of them not zero.
pub record IsFraction (m : Bytes) : Type 0 where
  pub digits : all is_digit m ≡ true
  pub trimmed : ends_in_zero m ≡ false
  pub inhabited : m ≢ []

IsFraction-cons : (c : ℕ) (m : Bytes) → is_digit c ≡ true → IsFraction m → IsFraction (c ∷ m)
unfolding ends_in_zero
IsFraction-cons c [] h f = absurd (f.inhabited refl)
IsFraction-cons c (d ∷ m) h f = record {
  digits = ground (arith, f.digits);
  trimmed = f.trimmed;
  inhabited = λ e. cc;
}

digit-ne-zero : (i : ℕ) → 0 < i → i < 62 → (digit i == b'0') ≡ false
digit-ne-zero i p h =
    let z : digit 0 ≡ b'0' = unfold digit digits_alphabet in refl in
    ground (arith, digit_mono 0 i p h)

IsFraction-digit : (i : ℕ) → 0 < i → i < 62 → IsFraction (digit i ∷ [])
unfolding ends_in_zero
IsFraction-digit i p h = record {
  digits = ground (arith, digit-is_digit i h);
  trimmed = digit-ne-zero i p h;
  inhabited = λ e. cc;
}

bytes_lt-nil : {m : Bytes} → IsFraction m → bytes_lt [] m ≡ true
unfolding bytes_lt
bytes_lt-nil {m = []} f = absurd (f.inhabited refl)
bytes_lt-nil {m = x ∷ m} f = refl

-- What is put before a fraction `rest` that is above a bound's tail, by the value of its first digit.
data Tops (v : ℕ) (rest : Bytes) : Bytes → Type 0 where
  same : {m : Bytes} → m ≡ digit v ∷ rest → Tops v rest m
  above : (k : ℕ) (t : Bytes) {m : Bytes} → m ≡ k ∷ t → digit v < k → Tops v rest m

Tops-above :
    (c : ℕ) (cs rest : Bytes) {m : Bytes}
    → is_digit c ≡ true
    → bytes_lt cs rest ≡ true
    → Tops (digit_value c) rest m
    → bytes_lt (c ∷ cs) m ≡ true
Tops-above c cs rest h lt (same e) = rw (e, (digit_value_lem c h).1, bytes_lt-cons) lt
Tops-above c cs rest h lt (above k t e up) =
    rw e (bytes_lt-head c k cs t (rw (digit_value_lem c h).1 at up))

-- The digit halfway between two that are not neighbours.
abbrev half : ℕ → ℕ → ℕ
half v w = (v + w + 1) / 2

half_between : (v w : ℕ) → 1 < w - v → (v < half v w) × (half v w < w)
half_between v w h = omega arith

midpoint_at-open :
    (v : ℕ) (a rest : Bytes)
    → first_value 0 a ≡ v
    → v < 62
    → IsFraction rest
    → IsFraction (midpoint_at a [] rest) × Tops v rest (midpoint_at a [] rest)
unfolding midpoint_at first_value
midpoint_at-open v a rest e h f = elim (Bool-cases (ltb 1 (62 - v))) [
  | inl far ↦
      let b = half_between v 62 (ltb→lt _ _ far) in
      rw (e, far)
        (
          IsFraction-digit (half v 62) (omega arith) b.1,
          above (digit (half v 62)) [] refl (digit_mono v (half v 62) b.0 b.1),
        )
  | inr near ↦ rw (e, near) (IsFraction-cons (digit v) rest (digit-is_digit v h) f, same refl)
]

bytes_lt-more :
    (d : ℕ) (ds : Bytes) → ltb 1 (length (d ∷ ds)) ≡ true → bytes_lt (d ∷ []) (d ∷ ds) ≡ true
unfolding bytes_lt
bytes_lt-more d [] h = absurd (ground arith)
bytes_lt-more d (x ∷ ds) h = ground arith

midpoint_at-closed :
    (v : ℕ) (a : Bytes) (d : ℕ) (ds rest : Bytes)
    → first_value 0 a ≡ v
    → v < 62
    → is_digit d ≡ true
    → digit v < d
    → IsFraction rest
    → IsFraction (midpoint_at a (d ∷ ds) rest)
      × Tops v rest (midpoint_at a (d ∷ ds) rest)
      × (bytes_lt (midpoint_at a (d ∷ ds) rest) (d ∷ ds) ≡ true)
unfolding midpoint_at first_value
midpoint_at-closed v a d ds rest e h hd lt f =
    let (bw, ew) = digit_value_lem d hd in
    let up : v < digit_value d =
      rw (digit_value-digit v h) at (digit_value_lt (digit v) d (digit-is_digit v h) hd lt) in
    elim (Bool-cases (ltb 1 (digit_value d - v))) [
      | inl far ↦
          let b = half_between v (digit_value d) (ltb→lt _ _ far) in
          let m : ℕ = half v (digit_value d) in
          let below : digit m < d = rw ew at (digit_mono m (digit_value d) b.1 bw) in
          rw (e, far)
            (
              IsFraction-digit m (omega arith) (omega arith),
              above (digit m) [] refl (digit_mono v m b.0 (omega arith)),
              bytes_lt-head (digit m) d [] ds below,
            )
      | inr near ↦ elim (Bool-cases (ltb 1 (length (d ∷ ds)))) [
        | inl long ↦
            rw (e, near, long)
              (
                rw ew at (IsFraction-digit (digit_value d) (omega arith) bw),
                above d [] refl lt,
                bytes_lt-more d ds long,
              )
        | inr short ↦
            rw (e, near, short)
              (
                IsFraction-cons (digit v) rest (digit-is_digit v h) f,
                same refl,
                bytes_lt-head (digit v) d rest ds lt,
              )
      ]
    ]

-- `midpoint(a, "")` is a fraction above `a`.
pub midpoint_open-above :
    (a : Bytes)
    → all is_digit a ≡ true
    → IsFraction (midpoint_open a) × (bytes_lt a (midpoint_open a) ≡ true)
unfolding midpoint_open midpoint_at first_value
midpoint_open-above [] h =
    (IsFraction-digit 31 (omega arith) (omega arith), unfold bytes_lt in refl)
midpoint_open-above (c ∷ cs) h =
    let (hc, hs) = and_true (is_digit c) _ h in
    let (f, lt) = midpoint_open-above cs hs in
    let (f', top) =
      midpoint_at-open (digit_value c) (c ∷ cs) (midpoint_open cs) (unfold first_value in refl)
        (digit_value_lem c hc).0 f in
    (f', Tops-above c cs _ hc lt top)

ends_in_zero-tail :
    (a : Bytes) (d : ℕ) (ds : Bytes)
    → bytes_lt a ds ≡ true
    → ends_in_zero (d ∷ ds) ≡ false
    → ends_in_zero ds ≡ false
unfolding ends_in_zero bytes_lt
ends_in_zero-tail [] d [] lt z = absurd (ground arith)
ends_in_zero-tail (c ∷ a) d [] lt z = absurd (ground arith)
ends_in_zero-tail a d (x ∷ ds) lt z = z

bytes_lt-nil_of_zero :
    (d : ℕ) (ds : Bytes)
    → (b'0' == d) ≡ true
    → ends_in_zero (d ∷ ds) ≡ false
    → bytes_lt [] ds ≡ true
unfolding ends_in_zero bytes_lt
bytes_lt-nil_of_zero d [] e z = absurd (ground arith)
bytes_lt-nil_of_zero d (x ∷ ds) e z = refl

digit_zero-lt : (d : ℕ) → is_digit d ≡ true → (b'0' == d) ≡ false → digit 0 < d
digit_zero-lt d hd ne =
    let z : digit 0 ≡ b'0' = unfold digit digits_alphabet in refl in
    let (bw, ew) = digit_value_lem d hd in
    elim (dec_lt 0 (digit_value d)) [
      | yes p ↦ rw ew at (digit_mono 0 (digit_value d) p bw)
      | no p ↦
          let w : digit_value d ≡ 0 = omega arith in
          let e : d ≡ b'0' = sym ew ∙ ap digit w ∙ z in absurd (ground arith)
    ]

-- With a bound on each side the fraction lies strictly between them.
pub midpoint-between :
    (a b : Bytes)
    → all is_digit a ≡ true
    → all is_digit b ≡ true
    → ends_in_zero b ≡ false
    → bytes_lt a b ≡ true
    → IsFraction (midpoint a b)
      × (bytes_lt a (midpoint a b) ≡ true)
      × (bytes_lt (midpoint a b) b ≡ true)
unfolding midpoint
midpoint-between [] [] ha hb z lt = absurd (unfold bytes_lt in ground arith)
midpoint-between (c ∷ cs) [] ha hb z lt = absurd (unfold bytes_lt in ground arith)
midpoint-between [] (d ∷ ds) ha hb z lt =
    let (hd, hs) = and_true (is_digit d) _ hb in
    elim (Bool-cases (b'0' == d)) [
      | inl zero_digit ↦
          let rest = bytes_lt-nil_of_zero d ds zero_digit z in
          let (f, up, down) =
            midpoint-between [] ds refl hs (ends_in_zero-tail [] d ds rest z) rest in
          rw zero_digit (IsFraction-cons d _ hd f, unfold bytes_lt in refl, rw bytes_lt-cons down)
      | inr other ↦
          let (f, top, down) =
            midpoint_at-closed 0 [] d ds (midpoint_open []) (unfold first_value in refl)
              (omega arith) hd (digit_zero-lt d hd other) (midpoint_open-above [] refl).0 in
          rw other (f, bytes_lt-nil f, down)
    ]
midpoint-between (c ∷ cs) (d ∷ ds) ha hb z lt =
    let (hc, hs) = and_true (is_digit c) _ ha in
    let (hd, ht) = and_true (is_digit d) _ hb in
    elim (bytes_lt-heads c cs d ds lt) [
      | inl (e, rest) ↦
          let (f, up, down) =
            midpoint-between cs ds hs ht (ends_in_zero-tail cs d ds rest z) rest in
          let same_byte : c ≡ d = (==_iff c d).0 e in
          rw e (IsFraction-cons d _ hd f, rw (same_byte, bytes_lt-cons) up, rw bytes_lt-cons down)
      | inr (other, less) ↦
          let (v, ev) = digit_value_lem c hc in
          let (g, over) = midpoint_open-above cs hs in
          let (f, top, down) =
            midpoint_at-closed (digit_value c) (c ∷ cs) d ds (midpoint_open cs)
              (unfold first_value in refl) v hd (rw ev less) g in
          rw other (f, Tops-above c cs _ hc over top, down)
    ]
