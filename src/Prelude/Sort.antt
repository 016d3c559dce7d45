-- ===== src/Prelude/Sort.antt =====
-- `sort.Strings` and `sort.Slice` as insertion sort by a strict order.
use mathlib.Core.Path.{◌≡◌, refl}
use mathlib.Core.Logic.{◌⊎◌, inl, inr}
use mathlib.Core.Bool.{Bool, true, false}
use mathlib.Core.List.{List, [], ◌∷◌}
use native.Mathlib.Omega.{arith}
use tk.Prelude.Lists.{all}
use tk.Prelude.Tests.{if◌then◌else◌, Bool-cases}

module _ {ℓ} {A : Type ℓ} where
  unfoldable pub insert_by : (A → A → Bool) → A → List A → List A
  insert_by lt x [] = x ∷ []
  insert_by lt x (y ∷ ys) = if lt y x then y ∷ insert_by lt x ys else x ∷ y ∷ ys

  unfoldable pub sort_by : (A → A → Bool) → List A → List A
  unfolding insert_by
  sort_by lt [] = []
  sort_by lt (x ∷ xs) = insert_by lt x (sort_by lt xs)

module _ {A : Type 0} where
  abbrev pub In : A → List A → Type 0
  In x [] = ⊥
  In x (y ∷ ys) = (x ≡ y) ⊎ In x ys

  pub all-In : (f : A → Bool) (l : List A) → ((q : A) → In q l → f q ≡ true) → all f l ≡ true
  all-In f [] h = refl
  all-In f (q ∷ l) h = ground (arith, h q (inl refl), all-In f l (λ r i. h r (inr i)))

  pub all-at : (f : A → Bool) (l : List A) (q : A) → all f l ≡ true → In q l → f q ≡ true
  all-at f [] q h i = absurd i
  all-at f (x ∷ l) q h (inl e) = rw e (ground arith)
  all-at f (x ∷ l) q h (inr i) = all-at f l q (ground arith) i

  -- No element stands after one that it precedes.
  abbrev pub IsSorted : (A → A → Bool) → List A → Type 0
  IsSorted lt [] = Unit
  IsSorted lt (x ∷ xs) = ((y : A) → In y xs → lt y x ≡ false) × IsSorted lt xs

  pub insert_by-In :
      (lt : A → A → Bool) (x y : A) (xs : List A)
      → (In y (insert_by lt x xs) → (y ≡ x) ⊎ In y xs)
        × ((y ≡ x) ⊎ In y xs → In y (insert_by lt x xs))
  unfolding insert_by
  insert_by-In lt x y [] = ((λ i. i), λ i. i)
  insert_by-In lt x y (z ∷ zs) = elim (Bool-cases (lt z x)) [
    | inl e ↦ rw e (
      (λ i. elim i [
        | inl h ↦ inr (inl h)
        | inr h ↦ elim ((insert_by-In lt x y zs).0 h) [ inl k ↦ inl k | inr k ↦ inr (inr k) ]
      ]),
      λ i. elim i [
        | inl h ↦ inr ((insert_by-In lt x y zs).1 (inl h))
        | inr h ↦ elim h [ inl k ↦ inl k | inr k ↦ inr ((insert_by-In lt x y zs).1 (inr k)) ]
      ],
    )
    | inr e ↦ rw e ((λ i. i), λ i. i)
  ]

  -- Sorting keeps the elements.
  pub sort_by-In :
      (lt : A → A → Bool) (y : A) (xs : List A)
      → (In y (sort_by lt xs) → In y xs) × (In y xs → In y (sort_by lt xs))
  unfolding sort_by
  sort_by-In lt y [] = ((λ i. i), λ i. i)
  sort_by-In lt y (x ∷ xs) =
      let (there, back) = insert_by-In lt x y (sort_by lt xs) in
      let (out, in') = sort_by-In lt y xs in
      (
        (λ i. elim (there i) [ inl h ↦ inl h | inr h ↦ inr (out h) ]),
        λ i. elim i [ inl h ↦ back (inl h) | inr h ↦ back (inr (in' h)) ],
      )

  -- What sorting asks of its order.
  pub record IsOrder (lt : A → A → Bool) : Type 0 where
    pub asymm : (a b : A) → lt a b ≡ true → lt b a ≡ false
    pub gap : (a b c : A) → lt a b ≡ false → lt b c ≡ false → lt a c ≡ false

  insert_by-IsSorted :
      (lt : A → A → Bool) (o : IsOrder lt) (x : A) (xs : List A)
      → IsSorted lt xs
      → IsSorted lt (insert_by lt x xs)
  unfolding insert_by
  insert_by-IsSorted lt o x [] s = ((λ y i. absurd i), tt)
  insert_by-IsSorted lt o x (z ∷ zs) (least, s) = elim (Bool-cases (lt z x)) [
    | inl e ↦ rw e (
      (λ y i. elim ((insert_by-In lt x y zs).0 i) [
        | inl h ↦ rw h (o.asymm z x e)
        | inr h ↦ least y h
      ]),
      insert_by-IsSorted lt o x zs s,
    )
    | inr e ↦
        rw e ((λ y i. elim i [ inl h ↦ rw h e | inr h ↦ o.gap y z x (least y h) e ]), (least, s))
  ]

  -- Sorting by an order sorts.
  pub sort_by-IsSorted :
      (lt : A → A → Bool) (o : IsOrder lt) (xs : List A) → IsSorted lt (sort_by lt xs)
  unfolding sort_by
  sort_by-IsSorted lt o [] = tt
  sort_by-IsSorted lt o (x ∷ xs) =
      insert_by-IsSorted lt o x (sort_by lt xs) (sort_by-IsSorted lt o xs)
