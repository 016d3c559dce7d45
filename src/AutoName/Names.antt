-- ===== src/AutoName/Names.antt =====
-- internal/scope/autoname.go: what a seed is made into.
use tk.Prelude.{
  ℕ, zero, suc, ◌≤◌, Bool, true, false, ◌||◌, List, [], ◌∷◌, ◌≡◌, refl, sym, ◌∙◌, arith, ap, all,
  any, take, drop, take-append-drop, append-nil, ◌++◌, min, if◌then◌else◌, length, length-take, ltb,
  ◌==◌, ==_iff, Bool-cases, inl, inr, ◌⊎◌,
}
use tk.Id.{scope_name_max, has_byte, letter_alphabet, digit_alphabet, is_lower_alnum, is_scope_name}
use tk.AutoName.{is_auto_letter, in_alphabet, kept_of, from_letter, sanitize}

has_byte-all :
    (test : ℕ → Bool) (l : List ℕ) (c : ℕ) → all test l ≡ true → has_byte l c ≡ true → test c ≡ true
unfolding has_byte
has_byte-all test [] c h k = absurd cc
has_byte-all test (x ∷ l) c h k = elim (Bool-cases (x == c)) [
  | inl e ↦
      let same : x ≡ c = (==_iff x c).0 e in
      let first : test x ≡ true = ground arith in rw (← same) first
  | inr e ↦ has_byte-all test l c (ground arith) (ground arith)
]

pub in_alphabet-is_lower_alnum : (c : ℕ) → in_alphabet c ≡ true → is_lower_alnum c ≡ true
unfolding in_alphabet is_auto_letter letter_alphabet digit_alphabet is_lower_alnum
in_alphabet-is_lower_alnum c h = elim (Bool-cases (has_byte letter_alphabet c)) [
  | inl e ↦ has_byte-all is_lower_alnum letter_alphabet c refl e
  | inr e ↦ has_byte-all is_lower_alnum digit_alphabet c refl (ground arith)
]

pub all-in_alphabet : (l : List ℕ) → all in_alphabet l ≡ true → all is_lower_alnum l ≡ true
all-in_alphabet [] h = refl
all-in_alphabet (c ∷ cs) h = ground (arith, in_alphabet-is_lower_alnum c, all-in_alphabet cs)

-- A string that starts with a letter, and has only characters of the alphabet.
abbrev pub IsNamed : List ℕ → Type 0
IsNamed [] = Unit
IsNamed (c ∷ cs) = (is_auto_letter c ≡ true) × (all in_alphabet cs ≡ true)

all-take : (n : ℕ) (l : List ℕ) → all in_alphabet l ≡ true → all in_alphabet (take n l) ≡ true
all-take zero l h = refl
all-take (suc n) [] h = refl
all-take (suc n) (c ∷ cs) h = ground (arith, all-take n cs)

pub within : (n : ℕ) → n ≤ 20 → ltb 20 n ≡ false
within n h = ground arith

not_empty : (n : ℕ) → ltb (suc n) 1 ≡ false
not_empty n = ground arith

pub legal_name :
    (c : ℕ) (cs : List ℕ)
    → length (c ∷ cs) ≤ 20
    → is_lower_alnum c ≡ true
    → all is_lower_alnum cs ≡ true
    → is_scope_name (c ∷ cs) ≡ true
unfolding is_scope_name
legal_name c cs short h k =
    rw (not_empty (length cs), within (suc (length cs)) short, h, is_scope_name) k

any-letter :
    (skipped : List ℕ) (c : ℕ) (cs : List ℕ)
    → is_auto_letter c ≡ true
    → any is_auto_letter (skipped ++ c ∷ cs) ≡ true
any-letter [] c cs h = rw h refl
any-letter (s ∷ skipped) c cs h = ground (arith, any-letter skipped c cs h)

full_length : {m : ℕ} (n : ℕ) → ltb 20 (suc n) ≡ true → m ≡ min 19 n → suc m ≡ 20
full_length {m} n f e = ground (arith, e)

pub letter-in_alphabet : (c : ℕ) → in_alphabet c ≡ false → is_auto_letter c ≡ false
unfolding in_alphabet
letter-in_alphabet c h = ground arith

abbrev pub filtered : (ℕ → Bool) → List ℕ → List ℕ
filtered test [] = []
filtered test (c ∷ cs) = if test c then c ∷ filtered test cs else filtered test cs

-- A name made of a seed: what is left of the seed in the alphabet, from its first letter on, cut only at
-- the longest name.
pub record IsNameOf (seed name : List ℕ) : Type 0 where
  pub skipped : List ℕ
  pub rest : List ℕ
  pub parts : filtered in_alphabet seed ≡ skipped ++ (name ++ rest)
  pub no_letter : any is_auto_letter skipped ≡ false
  pub uncut : (rest ≡ []) ⊎ (length name ≡ scope_name_max)

module _ (is_upper is_lower : ℕ → Bool) (to_lower : ℕ → ℕ) where
  all-kept_of : (seed : List ℕ) → all in_alphabet (kept_of is_upper is_lower to_lower seed) ≡ true
  unfolding kept_of
  all-kept_of [] = refl
  all-kept_of (c ∷ cs) = elim (Bool-cases (in_alphabet c)) [
    | inl e ↦ rw (e, e) (all-kept_of cs)
    | inr e ↦ rw e (all-kept_of cs)
  ]

  from_letter-IsNamed :
      (l : List ℕ) → all in_alphabet l ≡ true → IsNamed (from_letter is_upper is_lower to_lower l)
  unfolding from_letter
  from_letter-IsNamed [] h = tt
  from_letter-IsNamed (c ∷ cs) h = elim (Bool-cases (is_auto_letter c)) [
    | inl e ↦ rw e (e, ground arith)
    | inr e ↦ rw e (from_letter-IsNamed cs (ground arith))
  ]

  -- What is cut off before the first letter has no letter.
  from_letter-cut :
      (l : List ℕ)
      → (skipped : List ℕ) × (l ≡ skipped ++ from_letter is_upper is_lower to_lower l)
        × (any is_auto_letter skipped ≡ false)
  unfolding from_letter
  from_letter-cut [] = ([], refl, refl)
  from_letter-cut (c ∷ cs) = elim (Bool-cases (is_auto_letter c)) [
    | inl e ↦ ([], rw e refl, refl)
    | inr e ↦
        let (skipped, whole, none_in) = from_letter-cut cs in
        (c ∷ skipped, rw e (ap (◌∷◌ c) whole), rw e none_in)
  ]

  kept_of-filter :
      (seed : List ℕ) → kept_of is_upper is_lower to_lower seed ≡ filtered in_alphabet seed
  unfolding kept_of
  kept_of-filter [] = refl
  kept_of-filter (c ∷ cs) = elim (Bool-cases (in_alphabet c)) [
    | inl e ↦ rw e (ap (◌∷◌ c) (kept_of-filter cs))
    | inr e ↦ rw e (kept_of-filter cs)
  ]

  -- Nothing is left only of a string without letters.
  from_letter-none :
      (l : List ℕ) → from_letter is_upper is_lower to_lower l ≡ [] → any is_auto_letter l ≡ false
  unfolding from_letter
  from_letter-none [] h = refl
  from_letter-none (c ∷ cs) h = elim (Bool-cases (is_auto_letter c)) [
    | inl e ↦ absurd (let x = rw e at h in cc)
    | inr e ↦ rw e (from_letter-none cs (rw e at h))
  ]

  any-kept_of :
      (seed : List ℕ)
      → any is_auto_letter (kept_of is_upper is_lower to_lower seed) ≡ any is_auto_letter seed
  unfolding kept_of
  any-kept_of [] = refl
  any-kept_of (c ∷ cs) = elim (Bool-cases (in_alphabet c)) [
    | inl e ↦ rw e (ap (λ (b : Bool). is_auto_letter c || b) (any-kept_of cs))
    | inr e ↦ rw (e, letter-in_alphabet c e) (any-kept_of cs)
  ]

  -- What a seed is made into: nothing, or a name that is accepted.
  pub sanitize-cases :
      (seed : List ℕ)
      → ((sanitize is_upper is_lower to_lower seed ≡ []) × (any is_auto_letter seed ≡ false))
        ⊎ ((c : ℕ) × (cs : List ℕ) × (sanitize is_upper is_lower to_lower seed ≡ c ∷ cs)
            × (is_auto_letter c ≡ true)
            × (all in_alphabet cs ≡ true)
            × (length (c ∷ cs) ≤ scope_name_max)
            × (any is_auto_letter seed ≡ true)
            × IsNameOf seed (c ∷ cs))
  unfolding sanitize
  sanitize-cases seed =
      go (from_letter is_upper is_lower to_lower (kept_of is_upper is_lower to_lower seed)) refl
        (from_letter-IsNamed (kept_of is_upper is_lower to_lower seed) (all-kept_of seed))
    where
      go :
          (l : List ℕ)
          → from_letter is_upper is_lower to_lower (kept_of is_upper is_lower to_lower seed) ≡ l
          → IsNamed l
          → ((sanitize is_upper is_lower to_lower seed ≡ []) × (any is_auto_letter seed ≡ false))
            ⊎ ((c : ℕ) × (cs : List ℕ) × (sanitize is_upper is_lower to_lower seed ≡ c ∷ cs)
                × (is_auto_letter c ≡ true)
                × (all in_alphabet cs ≡ true)
                × (length (c ∷ cs) ≤ scope_name_max)
                × (any is_auto_letter seed ≡ true)
                × IsNameOf seed (c ∷ cs))
      go [] e n = inl (
        rw (e, sanitize) refl,
        sym (any-kept_of seed) ∙ from_letter-none (kept_of is_upper is_lower to_lower seed) e,
      )
      go (c ∷ cs) e (first, rest) =
          let kept = kept_of is_upper is_lower to_lower seed in
          let (skipped, whole, none_in) = from_letter-cut kept in
          let parts : filtered in_alphabet seed ≡ skipped ++ (c ∷ cs) =
            sym (kept_of-filter seed) ∙ whole ∙ ap (λ (l : List ℕ). skipped ++ l) e in
          let has : any is_auto_letter seed ≡ true =
            sym (any-kept_of seed)
            ∙ ap (any is_auto_letter) (whole ∙ ap (λ (l : List ℕ). skipped ++ l) e)
            ∙ any-letter skipped c cs first in
          elim (Bool-cases (ltb scope_name_max (length (c ∷ cs)))) [
            | inl f ↦ inr (
              c,
              take 19 cs,
              rw (e, f, sanitize) refl,
              first,
              all-take 19 cs rest,
              omega (arith, length-take 19 cs),
              has,
              record {
                skipped = skipped;
                rest = drop 19 cs;
                parts =
                    parts ∙ ap (λ (l : List ℕ). skipped ++ (c ∷ l)) (sym (take-append-drop 19 cs));
                no_letter = none_in;
                uncut = inr (full_length (length cs) f (length-take 19 cs));
              },
            )
            | inr f ↦ inr (
              c,
              cs,
              rw (e, f, sanitize) refl,
              first,
              rest,
              ground arith,
              has,
              record {
                skipped = skipped;
                rest = [];
                parts = parts ∙ ap (λ (l : List ℕ). skipped ++ l) (sym (append-nil (c ∷ cs)));
                no_letter = none_in;
                uncut = inl refl;
              },
            )
          ]
