-- ===== src/Schema/Missing.antt =====
-- internal/scopeconfig/scopeconfig.go: the required fields that are missing.
use tk.Prelude.{
  Bool, true, false, ◌&&◌, not, Option, none, some, List, [], ◌∷◌, Bytes, ◌≡◌, ◌↔◌, refl, arith,
  bytes_eq, bytes_eq_iff, bytes_eq_refl, bytes_lt, lookup, lookup-absent, contains,
  contains-sort_by, has_key, Bool-cases, inl, inr, ap, sym, ◌∙◌,
}
use tk.Frontmatter.{Field, Model}
use tk.Schema.{Schema, Fields, FieldDecl, field_populated, by_key, missing, missing_required}
use tk.Schema.Populated.{IsSupplied, supplied-populated, populated-IsSupplied}

abbrev pub IsFieldMap : Fields → Type 0
IsFieldMap [] = Unit
IsFieldMap ((n, f) ∷ fs) = (has_key n fs ≡ false) × IsFieldMap fs

-- Whether a declaration asks for a value that a model lacks.
abbrev lacks : List Field → Bytes → Option FieldDecl → Bool
lacks custom name none = false
lacks custom name (some f) = f.required && not (field_populated f.type (by_key name custom))

contains-missing :
    (custom : List Field) (fs : Fields) (name : Bytes)
    → IsFieldMap fs
    → contains (missing custom fs) name ≡ lacks custom name (lookup name fs)
unfolding missing contains lookup
contains-missing custom [] name w = refl
contains-missing custom ((n, f) ∷ fs) name (fresh, w) =
    let rest = contains-missing custom fs name w in
    elim (Bool-cases (bytes_eq n name)) [
      | inr e ↦ ground (arith, rest)
      | inl e ↦
          let same : n ≡ name = (bytes_eq_iff n name).0 e in
          let absent : lacks custom name (lookup name fs) ≡ false =
            ap (lacks custom name) (lookup-absent name fs (rw same at fresh)) in
          rw same (ground (arith, rest, absent, bytes_eq_refl name))
    ]

-- For a map of fields with no name twice, a field is reported missing exactly when the schema declares it as
-- required and the model has no value that counts for its type. A value is that of the last item of its key.
-- For a string field a string counts that has a character, and another value whose printed form has one and
-- is not `<nil>`; for a list field a list with an entry; for an int or a bool any value.
pub missing_required_iff :
    (s : Schema) (m : Model) (name : Bytes)
    → IsFieldMap s.fields
    → (contains (missing_required s m) name ≡ true) ↔ (
        (f : FieldDecl) × (lookup name s.fields ≡ some f)
        × (f.required ≡ true)
        × ¬ (IsSupplied m.custom name f.type))
unfolding missing_required
missing_required_iff s m name w = (
  λ h. declared (lookup name s.fields) refl (sym whole ∙ h),
  λ (f, e, needed, lacking).
      whole ∙ (elim (Bool-cases (field_populated f.type (by_key name m.custom))) [
        | inl p ↦ absurd (lacking (populated-IsSupplied m.custom name f.type p))
        | inr p ↦ rw (e, needed, p) refl
      ]),
)
  where
    whole : contains (missing_required s m) name ≡ lacks m.custom name (lookup name s.fields)
    whole =
        contains-sort_by bytes_lt (missing m.custom s.fields) name
        ∙ contains-missing m.custom s.fields name w

    declared :
        (o : Option FieldDecl)
        → lookup name s.fields ≡ o
        → lacks m.custom name o ≡ true
        → (f : FieldDecl) × (lookup name s.fields ≡ some f)
          × (f.required ≡ true)
          × ¬ (IsSupplied m.custom name f.type)
    declared none e h = absurd cc
    declared (some f) e h = (
      f,
      e,
      ground arith,
      λ supplied. absurd (let p = supplied-populated m.custom name f.type supplied in ground arith),
    )
