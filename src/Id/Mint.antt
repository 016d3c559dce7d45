-- ===== src/Id/Mint.antt =====
-- `Mint`: uniform draws, and the shape of what they make.
use native.Mathlib.Nat.{mod-lt, div-add-mod, mul-suc, mul-le-mul_left}
use tk.Prelude.{
  ℕ, suc, ◌+◌, ◌-◌, ◌*◌, ◌/◌, ◌%◌, ◌<◌, ◌≤◌, true, false, none, some, [], ◌∷◌, ◌++◌, Bytes, ◌≡◌,
  refl, arith, length, all, get_or, ltb, leb, ◌==◌, Bool-cases, Option-cases, lt→ltb, ltb→lt, sym,
  List, append-nil, append_assoc, length-append, ap, ◌∙◌, bytes_eq, bytes_eq_iff, inl, inr,
  all_below, all_below_sound, contains, if◌then◌else◌,
}
use tk.Id.{
  short_id_min, letter_alphabet, digit_alphabet, is_short_id_char, is_short_id_letter, is_short_id,
  Reader, ◌>>=◌, return, uniform, mint_next, mint, is_decimal, strip_digits, mint_blocked,
  blocked_letter_runs,
}

-- Inversion of a successful step.
bind-some :
    {A B : Type 0} (m : Reader A) (f : A → Reader B) (r : Bytes) {b : B} {r' : Bytes}
    → (m >>= f) r ≡ some (b, r')
    → (a : A) × (s : Bytes) × (m r ≡ some (a, s)) × (f a s ≡ some (b, r'))
bind-some m f r h = elim (Option-cases (m r)) [
  | inl e ↦ absurd (ground arith)
  | inr ((a, s), e) ↦ (a, s, e, ground arith)
]

uniform-lt : (n : ℕ) (r : Bytes) (k : ℕ) (r' : Bytes) → 0 < n → uniform n r ≡ some (k, r') → k < n
unfolding uniform
uniform-lt n [] k r' p h = absurd (ground arith)
uniform-lt n (b ∷ bs) k r' p h = ground (arith, uniform-lt n bs k r', mod-lt b p)

quotient_below : (n b : ℕ) → 0 < n → ltb b (256 - 256 % n) ≡ ltb (b / n) (256 / n)
quotient_below n b p =
    let room : 256 - 256 % n ≡ n * (256 / n) = omega (arith, div-add-mod 256 n) in
    let split : n * (b / n) + b % n ≡ b = div-add-mod b n in
    let small : b % n < n = mod-lt b p in
    elim (Bool-cases (ltb (b / n) (256 / n))) [
      | inl e ↦
          let step : n * suc (b / n) ≤ n * (256 / n) = mul-le-mul_left n (ltb→lt _ _ e) in
          let step' : n * (b / n) + n ≤ n * (256 / n) = rw mul-suc at step in
          let lt : b < n * (256 / n) = omega arith in rw (room, e) (lt→ltb _ _ lt)
      | inr e ↦
          let step : n * (256 / n) ≤ n * (b / n) = mul-le-mul_left n (ground arith) in
          let ge : n * (256 / n) ≤ b = omega arith in rw (room, e) (ground arith)
    ]

-- `uniform` is unbiased: whether a byte `b` is kept depends only on its quotient by `n`, and a kept
-- byte gives its remainder. So each index below `n` comes from exactly `256 / n` of the bytes, one for
-- each quotient below `256 / n`; any other byte is drawn again.
pub uniform-fair :
    (n b : ℕ) (bs : Bytes)
    → 0 < n
    → b < 256
    → uniform n (b ∷ bs) ≡ (if ltb (b / n) (256 / n) then some (b % n, bs) else uniform n bs)
unfolding uniform
uniform-fair n b bs p h = rw (quotient_below n b p) refl

letters_table : all_below 23 (λ i. is_short_id_letter (get_or letter_alphabet i 0)) ≡ true
unfolding all_below is_short_id_letter
letters_table = refl

chars_table : all_below 23 (λ i. is_short_id_char (get_or letter_alphabet i 0)) ≡ true
unfolding all_below is_short_id_char
chars_table = refl

digits_table : all_below 8 (λ i. is_short_id_char (get_or digit_alphabet i 0)) ≡ true
unfolding all_below is_short_id_char
digits_table = refl

mint_next-char :
    (r : Bytes) (c : ℕ) (r' : Bytes) → mint_next r ≡ some (c, r') → is_short_id_char c ≡ true
unfolding mint_next
mint_next-char r c r' h =
    let (coin, s, _, h') = bind-some (uniform 2) _ r h in
    let (n, t, drawn, last) =
      bind-some (uniform (if coin == 0 then 23 else 8))
        (λ n. return (get_or (if coin == 0 then letter_alphabet else digit_alphabet) n 0)) s h' in
    elim (Bool-cases (coin == 0)) [
      | inl e ↦
          let k : n < 23 = uniform-lt 23 s n t (omega arith) (rw e at drawn) in
          let c_is : get_or letter_alphabet n 0 ≡ c = ground (arith, rw e at last) in
          rw c_is at (
            all_below_sound 23 (λ i. is_short_id_char (get_or letter_alphabet i 0)) n chars_table k)
      | inr e ↦
          let k : n < 8 = uniform-lt 8 s n t (omega arith) (rw e at drawn) in
          let c_is : get_or digit_alphabet n 0 ≡ c = ground (arith, rw e at last) in
          rw c_is at
            (all_below_sound 8 (λ i. is_short_id_char (get_or digit_alphabet i 0)) n digits_table k)
    ]

letter_of :
    (r : Bytes) (n : ℕ) (r' : Bytes)
    → uniform 23 r ≡ some (n, r')
    → (is_short_id_letter (get_or letter_alphabet n 0) ≡ true)
      × (is_short_id_char (get_or letter_alphabet n 0) ≡ true)
letter_of r n r' h =
    let k = uniform-lt 23 r n r' (omega arith) h in
    (
      all_below_sound 23 (λ i. is_short_id_letter (get_or letter_alphabet i 0)) n letters_table k,
      all_below_sound 23 (λ i. is_short_id_char (get_or letter_alphabet i 0)) n chars_table k,
    )

-- Whatever the source of randomness gives, an id that `Mint` returns is a legal short-id of length 4.
pub mint-legal :
    (r s r' : Bytes) → mint r ≡ some (s, r') → (is_short_id s ≡ true) × (length s ≡ short_id_min)
unfolding mint is_short_id
mint-legal r s r' h =
    let (n, r₁, e₀, h₁) = bind-some (uniform 23) _ r h in
    let (a, r₂, e₁, h₂) = bind-some mint_next _ r₁ h₁ in
    let (b, r₃, e₂, h₃) = bind-some mint_next _ r₂ h₂ in
    let (c, r₄, e₃, h₄) =
      bind-some mint_next (λ c. return (get_or letter_alphabet n 0 ∷ a ∷ b ∷ c ∷ [])) r₃ h₃ in
    let s_is : get_or letter_alphabet n 0 ∷ a ∷ b ∷ c ∷ [] ≡ s = ground (arith, h₄) in
    rw (sym s_is) (
      ground (
        arith,
        letter_of r n r₁ e₀,
        mint_next-char r₁ a r₂ e₁,
        mint_next-char r₂ b r₃ e₂,
        mint_next-char r₃ c r₄ e₃,
      ),
      refl,
    )

-- The letters of a draw: its bytes that are no decimal digit.
abbrev pub letters : Bytes → Bytes
letters [] = []
letters (c ∷ cs) = if is_decimal c then letters cs else c ∷ letters cs

strip_digits-letters :
    (s acc : Bytes)
    → length acc ≤ 8
    → strip_digits acc s
      ≡ (if leb (length acc + length (letters s)) 8 then some (acc ++ letters s) else none)
unfolding strip_digits
strip_digits-letters [] acc h = rw append-nil (ground arith)
strip_digits-letters (c ∷ cs) acc h = elim (Bool-cases (is_decimal c)) [
  | inl e ↦ rw e (strip_digits-letters cs acc h)
  | inr e ↦ elim (Bool-cases (length acc == 8)) [
    | inl full ↦ rw (e, full) (ground arith)
    | inr room ↦
        let len : length (acc ++ c ∷ []) ≡ length acc + 1 = length-append acc (c ∷ []) in
        let l : length acc + 1 + length (letters cs) ≡ length acc + length (c ∷ letters cs) =
          omega arith in
        rw (e, room)
          (strip_digits-letters cs (acc ++ c ∷ []) (ground arith) ∙ rw (len, l, append_assoc) refl)
  ]
]

length_of_eq : (a b : Bytes) → bytes_eq a b ≡ true → length a ≡ length b
length_of_eq a b h = ap length ((bytes_eq_iff a b).0 h)

short_runs :
    (ws : List Bytes) (s : Bytes)
    → all (λ w. leb (length w) 8) ws ≡ true
    → 8 < length s
    → contains ws s ≡ false
unfolding contains
short_runs [] s h l = refl
short_runs (w ∷ ws) s h l = ground (arith, length_of_eq w s, short_runs ws s)

-- `MintBlocked` refuses a draw exactly when its letters, the digits left out, are a listed run. The
-- buffer of eight letters never decides it, since no listed run is longer.
pub mint_blocked-letters : (s : Bytes) → mint_blocked s ≡ contains blocked_letter_runs (letters s)
unfolding mint_blocked
mint_blocked-letters s = elim (Bool-cases (leb (length (letters s)) 8)) [
  | inl e ↦ rw (strip_digits-letters s [] (omega arith), mint_blocked) (ground arith)
  | inr e ↦
      rw (strip_digits-letters s [] (omega arith), mint_blocked)
        (ground (arith, short_runs blocked_letter_runs (letters s) refl (ground arith)))
]
