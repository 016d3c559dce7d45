-- ===== src/Schema/Declared.antt =====
-- internal/scopeconfig/scopeconfig.go: which declarations of statuses are accepted.
use tk.Prelude.{
  ℕ, ◌≤◌, Bool, true, false, ◌||◌, some, List, [], ◌∷◌, Bytes, codes, ◌≡◌, ◌⊎◌, ◌↔◌, refl, sym, ap,
  arith, all, length, ◌==◌, ==_iff, bytes_eq, bytes_eq_iff, Bool-cases, Option-cases, inl, inr,
}
use tk.Status.{
  Category, category_active, category_backlog, category_done, Customs, is_builtin, valid_category,
}
use tk.Schema.{is_lower, is_digit, to_category, validate_statuses, name_matches}

-- A character after the first of a name: a lower-case letter, a digit or the joiner.
abbrev pub IsNameChar : ℕ → ℕ → Type 0
IsNameChar joiner d = ((b'a' ≤ d) × (d ≤ b'z')) ⊎ (((b'0' ≤ d) × (d ≤ b'9')) ⊎ (d ≡ joiner))

abbrev pub AreNameChars : ℕ → Bytes → Type 0
AreNameChars joiner [] = Unit
AreNameChars joiner (d ∷ ds) = IsNameChar joiner d × AreNameChars joiner ds

-- A declared name: a lower-case letter, then at most 31 such characters.
abbrev pub IsDeclaredName : ℕ → Bytes → Type 0
IsDeclaredName joiner [] = ⊥
IsDeclaredName joiner (c ∷ cs) =
    ((b'a' ≤ c) × (c ≤ b'z')) × (length cs ≤ 31) × AreNameChars joiner cs

-- The category that a string names.
pub data IsCategory (s : Bytes) (c : Category) : Type 0 where
  is_active : s ≡ codes "active" → c ≡ category_active → IsCategory s c
  is_backlog : s ≡ codes "backlog" → c ≡ category_backlog → IsCategory s c
  is_done : s ≡ codes "done" → c ≡ category_done → IsCategory s c

-- The statuses that a list of legal declarations declares.
pub data Declares : List (Bytes × Bytes) → Customs → Type 0 where
  declares_none : Declares [] []
  declares :
      (name s : Bytes) (c : Category) (raw : List (Bytes × Bytes)) (m : Customs)
      → IsDeclaredName b'-' name
      → is_builtin name ≡ false
      → IsCategory s c
      → Declares raw m
      → Declares ((name, s) ∷ raw) ((name, c) ∷ m)

abbrev is_name_char : ℕ → ℕ → Bool
is_name_char joiner d = is_lower d || is_digit d || d == joiner

is_name_char-IsNameChar : (joiner d : ℕ) → is_name_char joiner d ≡ true → IsNameChar joiner d
is_name_char-IsNameChar joiner d h = elim (Bool-cases (is_lower d)) [
  | inl e ↦ inl (ground arith, ground arith)
  | inr e ↦ elim (Bool-cases (is_digit d)) [
    | inl f ↦ inr (inl (ground arith, ground arith))
    | inr f ↦ inr (inr ((==_iff d joiner).0 (ground arith)))
  ]
]

IsNameChar-is_name_char : (joiner d : ℕ) → IsNameChar joiner d → is_name_char joiner d ≡ true
IsNameChar-is_name_char joiner d (inl (h, k)) = ground arith
IsNameChar-is_name_char joiner d (inr (inl (h, k))) = ground arith
IsNameChar-is_name_char joiner d (inr (inr h)) = ground (arith, (==_iff d joiner).1 h)

all-AreNameChars :
    (joiner : ℕ) (ds : Bytes) → all (is_name_char joiner) ds ≡ true → AreNameChars joiner ds
all-AreNameChars joiner [] h = tt
all-AreNameChars joiner (d ∷ ds) h =
    (is_name_char-IsNameChar joiner d (ground arith), all-AreNameChars joiner ds (ground arith))

AreNameChars-all :
    (joiner : ℕ) (ds : Bytes) → AreNameChars joiner ds → all (is_name_char joiner) ds ≡ true
AreNameChars-all joiner [] h = refl
AreNameChars-all joiner (d ∷ ds) (h, k) =
    rw (IsNameChar-is_name_char joiner d h) (AreNameChars-all joiner ds k)

name_matches-IsDeclaredName :
    (joiner : ℕ) (name : Bytes) → name_matches joiner name ≡ true → IsDeclaredName joiner name
unfolding name_matches
name_matches-IsDeclaredName joiner [] h = absurd cc
name_matches-IsDeclaredName joiner (c ∷ cs) h =
    ((ground arith, ground arith), ground arith, all-AreNameChars joiner cs (ground arith))

IsDeclaredName-name_matches :
    (joiner : ℕ) (name : Bytes) → IsDeclaredName joiner name → name_matches joiner name ≡ true
unfolding name_matches
IsDeclaredName-name_matches joiner [] h = absurd h
IsDeclaredName-name_matches joiner (c ∷ cs) ((a, z), short, rest) =
    ground (arith, AreNameChars-all joiner cs rest)

to_category-IsCategory :
    (s : Bytes) → valid_category (to_category s) ≡ true → IsCategory s (to_category s)
unfolding to_category valid_category
to_category-IsCategory s h = elim (Bool-cases (bytes_eq s (codes "active"))) [
  | inl e ↦ is_active ((bytes_eq_iff s (codes "active")).0 e) (rw (e, to_category) refl)
  | inr e ↦ elim (Bool-cases (bytes_eq s (codes "backlog"))) [
    | inl f ↦ is_backlog ((bytes_eq_iff s (codes "backlog")).0 f) (rw (e, f, to_category) refl)
    | inr f ↦ elim (Bool-cases (bytes_eq s (codes "done"))) [
      | inl g ↦ is_done ((bytes_eq_iff s (codes "done")).0 g) (rw (e, f, g, to_category) refl)
      | inr g ↦ absurd (let x = rw (e, f, g, to_category, valid_category) at h in cc)
    ]
  ]
]

IsCategory-to_category :
    (s : Bytes) (c : Category)
    → IsCategory s c
    → (to_category s ≡ c) × (valid_category (to_category s) ≡ true)
unfolding to_category valid_category bytes_eq
IsCategory-to_category s c (is_active e f) = rw (e, f) (refl, refl)
IsCategory-to_category s c (is_backlog e f) = rw (e, f) (refl, refl)
IsCategory-to_category s c (is_done e f) = rw (e, f) (refl, refl)

record Step (k c : Bytes) (raw : List (Bytes × Bytes)) (m : Customs) : Type 0 where
  tail : Customs
  read : validate_statuses raw ≡ some tail
  joined : m ≡ (k, to_category c) ∷ tail
  named : name_matches b'-' k ≡ true
  fresh : is_builtin k ≡ false
  category : valid_category (to_category c) ≡ true

validate_statuses-Step :
    (k c : Bytes) (raw : List (Bytes × Bytes)) {m : Customs}
    → validate_statuses ((k, c) ∷ raw) ≡ some m
    → Step k c raw m
unfolding validate_statuses
validate_statuses-Step k c raw {m} h = elim (Bool-cases (name_matches b'-' k)) [
  | inr e ↦ absurd (let x = rw e at h in cc)
  | inl e ↦ elim (Bool-cases (is_builtin k)) [
    | inl f ↦ absurd (let x = rw (e, f) at h in cc)
    | inr f ↦ elim (Bool-cases (valid_category (to_category c))) [
      | inr v ↦ absurd (let x = rw (e, f, v) at h in cc)
      | inl v ↦ elim (Option-cases (validate_statuses raw)) [
        | inl o ↦ absurd (let x = rw (e, f, v, o) at h in cc)
        | inr (t, o) ↦
            let x = rw (e, f, v, o) at h in
            record { tail = t; read = o; joined = sym cc; named = e; fresh = f; category = v }
      ]
    ]
  ]
]

validate_statuses-Declares :
    (raw : List (Bytes × Bytes)) (m : Customs) → validate_statuses raw ≡ some m → Declares raw m
unfolding validate_statuses
validate_statuses-Declares [] m h = let x : [] ≡ m = cc in rw (← x) declares_none
validate_statuses-Declares ((k, c) ∷ raw) m h =
    let s = validate_statuses-Step k c raw h in
    rw s.joined (
      declares k c (to_category c) raw s.tail (name_matches-IsDeclaredName b'-' k s.named) s.fresh
        (to_category-IsCategory c s.category) (validate_statuses-Declares raw s.tail s.read))

Declares-validate_statuses :
    (raw : List (Bytes × Bytes)) (m : Customs) → Declares raw m → validate_statuses raw ≡ some m
unfolding validate_statuses
Declares-validate_statuses _ _ declares_none = refl
Declares-validate_statuses _ _ (declares name s c raw m named fresh category rest) =
    let (same, valid) = IsCategory-to_category s c category in
    rw
      (
        IsDeclaredName-name_matches b'-' name named,
        fresh,
        valid,
        Declares-validate_statuses raw m rest,
      )
      (ap (λ (d : Category). some ((name, d) ∷ m)) same)

-- A map of statuses is accepted exactly when each name is a lower-case letter and then at most 31 lower-case
-- letters, digits and hyphens, is not built-in, and has one of the three categories by its string. The
-- statuses are then exactly the declared ones, each with the category that its string names.
pub validate_statuses_iff :
    (raw : List (Bytes × Bytes)) (m : Customs) → (validate_statuses raw ≡ some m) ↔ Declares raw m
validate_statuses_iff raw m = (validate_statuses-Declares raw m, Declares-validate_statuses raw m)
