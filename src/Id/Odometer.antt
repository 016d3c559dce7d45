-- ===== src/Id/Odometer.antt =====
-- `incOdometer` steps to the next odometer in order, and stops after the last.
use tk.Prelude.{
  ℕ, suc, ◌+◌, ◌-◌, ◌*◌, ◌<◌, Bool, true, false, List, [], ◌∷◌, ◌≡◌, refl, arith, length, all, ltb,
  ap, Bool-cases, inl, inr, and_true, bytes_lt, ltb→lt,
}
use tk.Id.{inc_digit, inc_odometer, odometers}

-- The digits of an odometer are positions in the alphabet of 31 characters.
abbrev pub IsOdometer : List ℕ → Type 0
IsOdometer ds = all (λ d. ltb d 31) ds ≡ true

-- How many odometers of its length come after `ds`.
unfoldable pub left : List ℕ → ℕ
left [] = 0
left (d ∷ ds) = (30 - d) * odometers (length ds) + left ds

pub record Step (ds : List ℕ) (r : Bool × List ℕ) : Type 0 where
  pub same_length : length r.1 ≡ length ds
  pub digits : IsOdometer r.1
  pub falls : r.0 ≡ true → left ds ≡ suc (left r.1)
  pub wraps : r.0 ≡ false → suc (left r.1) ≡ odometers (length ds)
  pub spent : r.0 ≡ false → left ds ≡ 0
  pub next :
      r.0 ≡ true
      → (es : List ℕ) → IsOdometer es
      → length es ≡ length ds
      → bytes_lt ds es ≡ true
      → bytes_lt es r.1 ≡ false
  pub greatest :
      r.0 ≡ false → (es : List ℕ) → IsOdometer es → length es ≡ length ds → bytes_lt ds es ≡ false
  pub least : r.0 ≡ false → (es : List ℕ) → length es ≡ length ds → bytes_lt es r.1 ≡ false

module _ (d : ℕ) (ds : List ℕ) (small : d < 31) where
  keep_next :
      (ds' : List ℕ)
      → Step ds (true, ds')
      → (es : List ℕ) → IsOdometer es
      → length es ≡ length (d ∷ ds)
      → bytes_lt (d ∷ ds) es ≡ true
      → bytes_lt es (d ∷ ds') ≡ false
  unfolding bytes_lt
  keep_next ds' s [] o l lt = absurd (omega arith)
  keep_next ds' s (e ∷ es) o l lt = ground (arith, s.next refl es)

  keep-Step : (ds' : List ℕ) → Step ds (true, ds') → Step (d ∷ ds) (true, d ∷ ds')
  unfolding left
  keep-Step ds' s = record {
    same_length = ap suc s.same_length;
    digits = ground (arith, s.digits);
    falls = λ _. rw s.same_length (omega (arith, s.falls refl));
    wraps = λ e. cc;
    spent = λ e. cc;
    next = λ _ es. keep_next ds' s es;
    greatest = λ e. cc;
    least = λ e. cc;
  }

  carry_next :
      (ds' : List ℕ)
      → Step ds (false, ds')
      → (es : List ℕ) → IsOdometer es
      → length es ≡ length (d ∷ ds)
      → bytes_lt (d ∷ ds) es ≡ true
      → bytes_lt es ((d + 1) ∷ ds') ≡ false
  unfolding bytes_lt
  carry_next ds' s [] o l lt = absurd (omega arith)
  carry_next ds' s (e ∷ es) o l lt = ground (arith, s.greatest refl es, s.least refl es)

  carry_falls :
      (ds' : List ℕ)
      → Step ds (false, ds')
      → d + 1 < 31
      → left (d ∷ ds) ≡ suc (left ((d + 1) ∷ ds'))
  unfolding left
  carry_falls ds' s room =
      let k : 30 - d ≡ suc (30 - (d + 1)) = omega arith in
      rw (s.same_length, k) (omega (arith, s.spent refl, s.wraps refl))

  carry-Step :
      (ds' : List ℕ) → Step ds (false, ds') → d + 1 < 31 → Step (d ∷ ds) (true, (d + 1) ∷ ds')
  carry-Step ds' s room = record {
    same_length = ap suc s.same_length;
    digits = ground (arith, s.digits);
    falls = λ _. carry_falls ds' s room;
    wraps = λ e. cc;
    spent = λ e. cc;
    next = λ _ es. carry_next ds' s es;
    greatest = λ e. cc;
    least = λ e. cc;
  }

  wrap_greatest :
      (ds' : List ℕ)
      → Step ds (false, ds')
      → d ≡ 30
      → (es : List ℕ) → IsOdometer es
      → length es ≡ length (d ∷ ds)
      → bytes_lt (d ∷ ds) es ≡ false
  unfolding bytes_lt
  wrap_greatest ds' s last [] o l = absurd (omega arith)
  wrap_greatest ds' s last (e ∷ es) o l = ground (arith, s.greatest refl es)

  wrap_least :
      (ds' : List ℕ)
      → Step ds (false, ds')
      → (es : List ℕ) → length es ≡ length (d ∷ ds)
      → bytes_lt es (0 ∷ ds') ≡ false
  unfolding bytes_lt
  wrap_least ds' s [] l = absurd (omega arith)
  wrap_least ds' s (e ∷ es) l = ground (arith, s.least refl es)

  wrap-Step : (ds' : List ℕ) → Step ds (false, ds') → d ≡ 30 → Step (d ∷ ds) (false, 0 ∷ ds')
  unfolding left odometers
  wrap-Step ds' s last = record {
    same_length = ap suc s.same_length;
    digits = ground (arith, s.digits);
    falls = λ e. cc;
    wraps = λ _. rw s.same_length (omega (arith, s.wraps refl));
    spent = λ _. rw last (omega (arith, s.spent refl));
    next = λ e. cc;
    greatest = λ _ es. wrap_greatest ds' s last es;
    least = λ _ es. wrap_least ds' s es;
  }

  inc_digit-Step :
      (b : Bool) (ds' : List ℕ) → Step ds (b, ds') → Step (d ∷ ds) (inc_digit d (b, ds'))
  unfolding inc_digit
  inc_digit-Step true ds' s = keep-Step ds' s
  inc_digit-Step false ds' s = elim (Bool-cases (ltb (d + 1) 31)) [
    | inl room ↦ rw room (carry-Step ds' s (ltb→lt _ _ room))
    | inr full ↦ rw full (wrap-Step ds' s (ground arith))
  ]

nothing_longer : (es : List ℕ) → length es ≡ 0 → (bytes_lt [] es ≡ false) × (bytes_lt es [] ≡ false)
unfolding bytes_lt
nothing_longer [] l = (refl, refl)
nothing_longer (e ∷ es) l = absurd (omega arith)

pub inc_odometer-Step : (ds : List ℕ) → IsOdometer ds → Step ds (inc_odometer ds)
unfolding inc_odometer left
inc_odometer-Step [] h = record {
  same_length = refl;
  digits = refl;
  falls = λ e. cc;
  wraps = λ _. unfold odometers in refl;
  spent = λ _. refl;
  next = λ e. cc;
  greatest = λ _ es o l. (nothing_longer es l).0;
  least = λ _ es l. (nothing_longer es l).1;
}
inc_odometer-Step (d ∷ ds) h =
    let (small, rest) = and_true (ltb d 31) _ h in
    let r = inc_odometer ds in
    inc_digit-Step d ds (ltb→lt _ _ small) r.0 r.1 (inc_odometer-Step ds rest)
