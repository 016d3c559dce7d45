-- ===== src/Id/Extend.antt =====
-- `Extend`: the first free form of a short-id, in the order of the odometer.
use native.Mathlib.Decide.{dec_le}
use tk.Prelude.{
  ℕ, zero, suc, ◌+◌, ◌-◌, ◌≤◌, ◌<◌, true, false, Option, none, some, List, [], ◌∷◌, ◌++◌, map,
  Bytes, ◌≡◌, refl, arith, ◌⊎◌, inl, inr, length, length-append, all, all-append, get_or, replicate,
  ltb, ltb→lt, ap, sym, ◌∙◌, Bool-cases, and_true, contains, bytes_lt, bytes_lt_total, all_below,
  all_below_sound,
}
use tk.Id.Odometer.{IsOdometer, left, Step, inc_odometer-Step}
use tk.Id.{
  short_id_alphabet, short_id_max, is_short_id_char, is_short_id, has_prefix, inc_odometer,
  candidate, Search, found, all_taken, out_of_fuel, search_length, odometers, extend_lengths,
  extend, short_in_family,
}

module _ (prefix : Bytes) (occupied : List Bytes) where
  abbrev pub Taken : List ℕ → Type 0
  Taken us = contains occupied (candidate prefix us) ≡ true

  -- What the inner loop finds from `odometer` on.
  abbrev pub Outcome : List ℕ → Search → Type 0
  Outcome odometer (found c) =
      (es : List ℕ) × (c ≡ candidate prefix es)
      × IsOdometer es
      × (length es ≡ length odometer)
      × (contains occupied c ≡ false)
      × ((us : List ℕ)
          → IsOdometer us
          → length us ≡ length odometer
          → bytes_lt us odometer ≡ false
          → bytes_lt us es ≡ true
          → Taken us)
  Outcome odometer all_taken =
      (us : List ℕ)
      → IsOdometer us
      → length us ≡ length odometer
      → bytes_lt us odometer ≡ false
      → Taken us
  Outcome odometer out_of_fuel = ⊥

  -- An odometer not before `odometer` is it, or is not before the next one.
  later :
      (odometer us : List ℕ)
      → IsOdometer odometer
      → IsOdometer us
      → length us ≡ length odometer
      → bytes_lt us odometer ≡ false
      → (us ≡ odometer) ⊎ (bytes_lt odometer us ≡ true)
  later odometer us o u l h = elim (Bool-cases (bytes_lt odometer us)) [
    | inl lt ↦ inr lt
    | inr no_lt ↦ inl (bytes_lt_total us odometer h no_lt)
  ]

  -- What is found from the next odometer on, with this one taken, is found from this one on.
  onward :
      (odometer : List ℕ)
      → IsOdometer odometer
      → Taken odometer
      → (inc_odometer odometer).0 ≡ true
      → Step odometer (inc_odometer odometer)
      → (r : Search) → Outcome (inc_odometer odometer).1 r
      → Outcome odometer r
  onward odometer o taken go s (found c) (es, e, d, l, free, first) = (
    es,
    e,
    d,
    l ∙ s.same_length,
    free,
    λ us u l' h lt. elim (later odometer us o u l' h) [
      | inl same ↦ rw same taken
      | inr past ↦ first us u (l' ∙ sym s.same_length) (s.next go us u l' past) lt
    ],
  )
  onward odometer o taken go s all_taken h = λ us u l' before.
      elim (later odometer us o u l' before) [
        | inl same ↦ rw same taken
        | inr past ↦ h us u (l' ∙ sym s.same_length) (s.next go us u l' past)
      ]
  onward odometer o taken go s out_of_fuel h = h

  search_length-Outcome :
      (f : ℕ) (odometer : List ℕ)
      → IsOdometer odometer
      → left odometer < f
      → Outcome odometer (search_length f prefix occupied odometer)
  unfolding search_length
  search_length-Outcome zero odometer o h = absurd (omega arith)
  search_length-Outcome (suc f) odometer o h =
      let s = inc_odometer-Step odometer o in
      elim (Bool-cases (contains occupied (candidate prefix odometer))) [
        | inr free ↦ rw free (odometer, refl, o, refl, free, λ us u l h lt. absurd (ground arith))
        | inl taken ↦ elim (Bool-cases (inc_odometer odometer).0) [
          | inr stop ↦
              rw (taken, stop)
                (λ us u l h. elim (later odometer us o u l h) [
                  | inl e ↦ rw e taken
                  | inr lt ↦ absurd (ground (arith, s.greatest stop us u l))
                ])
          | inl go ↦
              rw (taken, go)
                (onward odometer o taken go s
                  (search_length f prefix occupied (inc_odometer odometer).1)
                  (search_length-Outcome f (inc_odometer odometer).1 s.digits
                    (omega (arith, s.falls go))))
        ]
      ]

short_id_length : (s : Bytes) → is_short_id s ≡ true → length s ≤ short_id_max
unfolding is_short_id
short_id_length s h = ground arith

zeros-IsOdometer : (k : ℕ) → IsOdometer (replicate k 0) × (length (replicate {A = ℕ} k 0) ≡ k)
zeros-IsOdometer zero = (refl, refl)
zeros-IsOdometer (suc k) = (ground (arith, zeros-IsOdometer k), ap suc (zeros-IsOdometer k).1)

zeros-left : (k : ℕ) → suc (left (replicate k 0)) ≡ odometers k
unfolding left odometers
zeros-left zero = refl
zeros-left (suc k) = rw (zeros-IsOdometer k).1 (omega (arith, zeros-left k))

zeros-least : (k : ℕ) (us : List ℕ) → length us ≡ k → bytes_lt us (replicate k 0) ≡ false
unfolding bytes_lt
zeros-least zero [] l = refl
zeros-least zero (u ∷ us) l = absurd (omega arith)
zeros-least (suc k) [] l = absurd (omega arith)
zeros-least (suc k) (u ∷ us) l = ground (arith, zeros-least k us)

module _ (prefix : Bytes) (occupied : List Bytes) where
  -- One candidate comes before another: it is shorter, or as long and earlier in the alphabet's order.
  abbrev pub Earlier : List ℕ → List ℕ → Type 0
  Earlier us es = (length us < length es) ⊎ ((length us ≡ length es) × (bytes_lt us es ≡ true))

  -- What `Extend` returns from the length with `k` added characters on: the first free candidate, or
  -- nothing, with every candidate taken.
  abbrev pub Extended : ℕ → Option Bytes → Type 0
  Extended k (some c) =
      (es : List ℕ) × (c ≡ candidate prefix es)
      × IsOdometer es
      × (k ≤ length es)
      × (length prefix + length es ≤ short_id_max)
      × (contains occupied c ≡ false)
      × ((us : List ℕ) → IsOdometer us → k ≤ length us → Earlier us es → Taken prefix occupied us)
  Extended k none =
      (us : List ℕ)
      → IsOdometer us
      → k ≤ length us
      → length prefix + length us ≤ short_id_max
      → Taken prefix occupied us

  all_of_length :
      (k : ℕ)
      → Outcome prefix occupied (replicate k 0) all_taken
      → (us : List ℕ) → IsOdometer us
      → k ≤ length us
      → Taken prefix occupied us ⊎ (suc k ≤ length us)
  all_of_length k o us u ge = elim (dec_le (suc k) (length us)) [
    | yes more ↦ inr more
    | no same ↦
        let l : length us ≡ k = omega arith in
        inl (o us u (l ∙ sym (zeros-IsOdometer k).1) (zeros-least k us l))
  ]

  -- One round of the outer loop, over what the later rounds return.
  one_length :
      (k : ℕ) (r : Search) (more : Option Bytes)
      → length prefix + k ≤ short_id_max
      → Outcome prefix occupied (replicate k 0) r
      → Extended (suc k) more
      → Extended k (elim r [ found c ↦ some c | all_taken ↦ more | out_of_fuel ↦ none ])
  one_length k (found c) more room (es, e, d, l, free, first) x =
      let len : length es ≡ k = l ∙ (zeros-IsOdometer k).1 in
      (
        es,
        e,
        d,
        omega arith,
        omega arith,
        free,
        λ us u ge earlier. elim earlier [
          | inl shorter ↦ absurd (omega arith)
          | inr (l', lt) ↦ first us u (l' ∙ l) (zeros-least k us (l' ∙ len)) lt
        ],
      )
  one_length k all_taken (some c) room o (es, e, d, ge, fits, free, first) = (
    es,
    e,
    d,
    omega arith,
    fits,
    free,
    λ us u ge' earlier. elim (all_of_length k o us u ge') [
      | inl taken ↦ taken
      | inr longer ↦ first us u longer earlier
    ],
  )
  one_length k all_taken none room o x = λ us u ge fits. elim (all_of_length k o us u ge) [
    | inl taken ↦ taken
    | inr longer ↦ x us u longer fits
  ]
  one_length k out_of_fuel more room o x = absurd o

  extend_lengths-Extended :
      (rounds k : ℕ)
      → length prefix + k + rounds ≡ short_id_max + 1
      → Extended k (extend_lengths rounds k prefix occupied)
  unfolding extend_lengths
  extend_lengths-Extended zero k h = λ us u ge fits. absurd (omega arith)
  extend_lengths-Extended (suc rounds) k h =
      one_length k (search_length (odometers k) prefix occupied (replicate k 0))
        (extend_lengths rounds (suc k) prefix occupied) (omega arith)
        (search_length-Outcome prefix occupied (odometers k) (replicate k 0) (zeros-IsOdometer k).0
          (omega (arith, zeros-left k)))
        (extend_lengths-Extended rounds (suc k) (omega arith))

-- For a legal short-id, `Extend` returns its first free extension: shorter ones first, then by the
-- order of the alphabet, every earlier candidate being occupied. It fails only when every extension
-- of up to eight characters is occupied, so two machines with the same set agree.
pub extend-Extended :
    (prefix : Bytes) (occupied : List Bytes)
    → is_short_id prefix ≡ true
    → Extended prefix occupied 1 (extend prefix occupied)
unfolding extend
extend-Extended prefix occupied h = rw h (
    extend_lengths-Extended prefix occupied (short_id_max - length prefix) 1
      (omega (arith, short_id_length prefix h)))

alphabet_table : all_below 31 (λ i. is_short_id_char (get_or short_id_alphabet i 0)) ≡ true
unfolding all_below is_short_id_char
alphabet_table = refl

added-chars :
    (es : List ℕ)
    → IsOdometer es
    → all is_short_id_char (map (λ d. get_or short_id_alphabet d 0) es) ≡ true
added-chars [] o = refl
added-chars (e ∷ es) o =
    let (small, rest) = and_true (ltb e 31) _ o in
    let here =
      all_below_sound 31 (λ i. is_short_id_char (get_or short_id_alphabet i 0)) e alphabet_table
        (ltb→lt _ _ small) in
    ground (arith, here, added-chars es rest)

length-added : (es : List ℕ) → length (map (λ d. get_or short_id_alphabet d 0) es) ≡ length es
length-added [] = refl
length-added (e ∷ es) = ap suc (length-added es)

append-legal :
    (p t : Bytes)
    → is_short_id p ≡ true
    → all is_short_id_char t ≡ true
    → length p + length t ≤ short_id_max
    → is_short_id (p ++ t) ≡ true
unfolding is_short_id
append-legal [] t h a fits = absurd (ground arith)
append-legal (c ∷ p) t h a fits = ground (arith, length-append p t, all-append is_short_id_char p t)

has_prefix-append : (p s : Bytes) → has_prefix (p ++ s) p ≡ true
unfolding has_prefix
has_prefix-append [] s = refl
has_prefix-append (c ∷ p) s = ground (arith, has_prefix-append p s)

-- An id that `Extend` returns is a legal short-id of the family of its prefix, longer than the prefix,
-- and not occupied.
pub extend-legal :
    (prefix : Bytes) (occupied : List Bytes) {c : Bytes}
    → extend prefix occupied ≡ some c
    → (is_short_id c ≡ true)
      × (short_in_family c prefix ≡ true)
      × (length prefix < length c)
      × (contains occupied c ≡ false)
unfolding short_in_family candidate extend
extend-legal prefix occupied {c} h = elim (Bool-cases (is_short_id prefix)) [
  | inr bad ↦ absurd (ground arith)
  | inl good ↦
      let x : Extended prefix occupied 1 (some c) =
        rw h at (extend-Extended prefix occupied good) in
      let es = x.0 in
      let added : Bytes = map (λ d. get_or short_id_alphabet d 0) es in
      let len : length added ≡ length es = length-added es in
      let legal : is_short_id (prefix ++ added) ≡ true =
        append-legal prefix added good (added-chars es x.2) (omega (arith, x.4)) in
      let c_is : c ≡ prefix ++ added = x.1 in
      let longer : length prefix < length (prefix ++ added) =
        omega (arith, length-append prefix added, x.3) in
      (rw c_is legal, rw (c_is, legal, good) (has_prefix-append prefix added), rw c_is longer, x.5)
]
