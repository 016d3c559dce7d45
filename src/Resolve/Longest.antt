-- ===== src/Resolve/Longest.antt =====
-- internal/resolve/resolve.go: the code-root that holds a directory.
use tk.Prelude.{
  ℕ, Bool, true, false, ◌&&◌, ◌||◌, not, Option, none, some, [], ◌∷◌, Bytes, ◌≡◌, refl, arith,
  length, leb, Bool-cases, inl, inr, ◌⊎◌, all, In,
}
use tk.Resolve.{Entry, Scopes, under_or_equal, is_longer, longest_from, longest_prefix}

abbrev is_shorter : Option (Bytes × Entry) → ℕ → Bool
is_shorter none n = true
is_shorter (some b) n = leb (length b.1.root) n

module _ (canonical : Bytes → Bytes) where
  -- A scope of the longest code-root that holds a directory, or none where none does.
  abbrev pub IsLongest : Bytes → Scopes → Option (Bytes × Entry) → Type 0
  IsLongest cwd scopes none = all (λ s. not (under_or_equal canonical cwd s.1.root)) scopes ≡ true
  IsLongest cwd scopes (some s) =
      In s scopes
      × (under_or_equal canonical cwd s.1.root ≡ true)
      × (all
            (λ r.
              not (under_or_equal canonical cwd r.1.root)
              || leb (length r.1.root) (length s.1.root))
            scopes
          ≡ true)

  -- The same of a best so far and the scopes that are left.
  abbrev Best : Bytes → Option (Bytes × Entry) → Scopes → Option (Bytes × Entry) → Type 0
  Best cwd best scopes none =
      (best ≡ none) × (all (λ s. not (under_or_equal canonical cwd s.1.root)) scopes ≡ true)
  Best cwd best scopes (some s) =
      ((best ≡ some s) ⊎ (In s scopes × (under_or_equal canonical cwd s.1.root ≡ true)))
      × (all
            (λ r.
              not (under_or_equal canonical cwd r.1.root)
              || leb (length r.1.root) (length s.1.root))
            scopes
          ≡ true)
      × (is_shorter best (length s.1.root) ≡ true)

  take-Best :
      (cwd : Bytes) (best : Option (Bytes × Entry)) (scopes : Scopes) (x : Bytes × Entry)
      → under_or_equal canonical cwd x.1.root ≡ true
      → is_longer canonical x.1 best ≡ true
      → (r : Option (Bytes × Entry)) → Best cwd (some x) scopes r
      → Best cwd best (x ∷ scopes) r
  take-Best cwd best scopes x u l none (h, _) = absurd cc
  take-Best cwd best scopes x u l (some s) (from, rest, short) =
      (chosen from, ground (arith, u, short, rest), shorter best l)
    where
      chosen :
          (some x ≡ some s) ⊎ (In s scopes × (under_or_equal canonical cwd s.1.root ≡ true))
          → (best ≡ some s) ⊎ (In s (x ∷ scopes) × (under_or_equal canonical cwd s.1.root ≡ true))
      chosen (inl h) = let same : s ≡ x = cc in inr (inl same, rw same u)
      chosen (inr (i, v)) = inr (inr i, v)

      shorter :
          (b : Option (Bytes × Entry))
          → is_longer canonical x.1 b ≡ true
          → is_shorter b (length s.1.root) ≡ true
      shorter none h = refl
      shorter (some b) h = ground (arith, short)

  skip-Best :
      (cwd : Bytes) (best : Option (Bytes × Entry)) (scopes : Scopes) (x : Bytes × Entry)
      → (under_or_equal canonical cwd x.1.root && is_longer canonical x.1 best) ≡ false
      → (r : Option (Bytes × Entry)) → Best cwd best scopes r
      → Best cwd best (x ∷ scopes) r
  skip-Best cwd none scopes x u none (h, rest) = (h, ground (arith, rest))
  skip-Best cwd (some b) scopes x u none (h, rest) = absurd cc
  skip-Best cwd best scopes x u (some s) (from, rest, short) =
      (elim from [ inl h ↦ inl h | inr p ↦ inr (inr p.0, p.1) ], head best u short, short)
    where
      head :
          (b : Option (Bytes × Entry))
          → (under_or_equal canonical cwd x.1.root && is_longer canonical x.1 b) ≡ false
          → is_shorter b (length s.1.root) ≡ true
          → all
              (λ r.
                not (under_or_equal canonical cwd r.1.root)
                || leb (length r.1.root) (length s.1.root))
              (x ∷ scopes)
            ≡ true
      head none v w = ground (arith, rest)
      head (some c) v w = ground (arith, rest)

  longest_from-Best :
      (cwd : Bytes) (best : Option (Bytes × Entry)) (scopes : Scopes)
      → Best cwd best scopes (longest_from canonical cwd best scopes)
  unfolding longest_from
  longest_from-Best cwd none [] = (refl, refl)
  longest_from-Best cwd (some b) [] = (inl refl, refl, ground arith)
  longest_from-Best cwd best ((n, e) ∷ scopes) =
      elim (Bool-cases (under_or_equal canonical cwd e.root && is_longer canonical e best)) [
        | inl h ↦ rw h (
            take-Best cwd best scopes (n, e) (ground arith) (ground arith)
              (longest_from canonical cwd (some (n, e)) scopes)
              (longest_from-Best cwd (some (n, e)) scopes))
        | inr h ↦ rw h (
            skip-Best cwd best scopes (n, e) h (longest_from canonical cwd best scopes)
              (longest_from-Best cwd best scopes))
      ]

  Best-IsLongest :
      (cwd : Bytes) (scopes : Scopes) (r : Option (Bytes × Entry))
      → Best cwd none scopes r
      → IsLongest cwd scopes r
  Best-IsLongest cwd scopes none (h, rest) = rest
  Best-IsLongest cwd scopes (some s) (inl h, rest, short) = absurd cc
  Best-IsLongest cwd scopes (some s) (inr (i, u), rest, short) = (i, u, rest)

  -- The scope that the working directory resolves to is registered and its code-root holds the
  -- directory, and no longer code-root of the registry does; there is none only when no code-root does.
  pub longest_prefix-IsLongest :
      (scopes : Scopes) (cwd : Bytes) → IsLongest cwd scopes (longest_prefix canonical scopes cwd)
  unfolding longest_prefix
  longest_prefix-IsLongest scopes cwd =
      Best-IsLongest cwd scopes (longest_from canonical cwd none scopes)
        (longest_from-Best cwd none scopes)
