-- ===== src/Schema/Populated.antt =====
-- internal/scopeconfig/scopeconfig.go: when a model has a value for a field, by `byKey` and `fieldPopulated`.
use tk.Prelude.{
  true, false, not, Option, none, some, List, [], ◌∷◌, ◌++◌, Bytes, codes, ◌≡◌, ◌≢◌, refl, arith,
  any, bytes_eq, bytes_eq_iff, bytes_eq_refl, Bool-cases, Option-cases, inl, inr, ap, ◌∙◌,
}
use tk.Frontmatter.{
  Field, Value, scalar, strings, values, null, text, printed, item, string_list, scalar_strings,
  sprint, sprint_scalar,
}
use tk.Schema.{
  FieldType, field_string, field_int, field_bool, field_strings, field_other,
  string_value_non_empty, has_item, field_populated, by_key,
}

-- A value is what the last item of a key holds.
pub record IsLast (key : Bytes) (fs : List Field) (v : Value) : Type 0 where
  pub before : List Field
  pub after : List Field
  pub parts : fs ≡ before ++ item key v ∷ after
  pub no_later : any (λ (f : Field). bytes_eq f.key key) after ≡ false

-- What a value must be to count for its type. For a string field a string has a character, and any other value
-- a printed form that has one and is not `<nil>`; for a list field a list has an entry; any value counts for
-- an int or a bool.
abbrev pub IsFilled : FieldType → Value → Type 0
IsFilled field_string (scalar null) = ⊥
IsFilled field_string (scalar (text s)) = s ≢ []
IsFilled field_string (scalar (printed s)) = (s ≢ []) × (s ≢ codes "<nil>")
IsFilled field_string (strings l) = Unit
IsFilled field_string (values l) = Unit
IsFilled field_strings (scalar s) = ⊥
IsFilled field_strings (strings []) = ⊥
IsFilled field_strings (strings (s ∷ l)) = Unit
IsFilled field_strings (values []) = ⊥
IsFilled field_strings (values (s ∷ l)) = Unit
IsFilled field_int v = Unit
IsFilled field_bool v = Unit
IsFilled (field_other t) v = Unit

-- A model has a value for a field of a type.
abbrev pub IsSupplied : List Field → Bytes → FieldType → Type 0
IsSupplied custom name t = (v : Value) × IsLast name custom v × IsFilled t v

by_key-absent :
    (key : Bytes) (fs : List Field)
    → any (λ (f : Field). bytes_eq f.key key) fs ≡ false
    → by_key key fs ≡ none
unfolding by_key
by_key-absent key [] h = refl
by_key-absent key (f ∷ fs) h =
    let here : bytes_eq f.key key ≡ false = ground arith in
    rw (by_key-absent key fs (ground arith), here) refl

absent-by_key :
    (key : Bytes) (fs : List Field)
    → by_key key fs ≡ none
    → any (λ (f : Field). bytes_eq f.key key) fs ≡ false
unfolding by_key
absent-by_key key [] h = refl
absent-by_key key (f ∷ fs) h = elim (Option-cases (by_key key fs)) [
  | inr (v, e) ↦ absurd (let x = rw e at h in cc)
  | inl e ↦ elim (Bool-cases (bytes_eq f.key key)) [
    | inl g ↦ absurd (let x = rw (e, g) at h in cc)
    | inr g ↦ rw g (absent-by_key key fs e)
  ]
]

by_key-last :
    (key : Bytes) (v : Value) (before after : List Field)
    → any (λ (f : Field). bytes_eq f.key key) after ≡ false
    → by_key key (before ++ item key v ∷ after) ≡ some v
unfolding by_key
by_key-last key v [] after h = rw (by_key-absent key after h, bytes_eq_refl key) refl
by_key-last key v (f ∷ before) after h = rw (by_key-last key v before after h) refl

by_key-IsLast :
    (key : Bytes) (fs : List Field) (v : Value) → by_key key fs ≡ some v → IsLast key fs v
unfolding by_key
by_key-IsLast key [] v h = absurd cc
by_key-IsLast key (f ∷ fs) v h = elim (Option-cases (by_key key fs)) [
  | inr (w, e) ↦
      let l = by_key-IsLast key fs v (e ∙ (rw e at h)) in
      record {
        before = f ∷ l.before;
        after = l.after;
        parts = ap (◌∷◌ f) l.parts;
        no_later = l.no_later;
      }
  | inl e ↦ elim (Bool-cases (bytes_eq f.key key)) [
    | inr g ↦ absurd (let x = rw (e, g) at h in cc)
    | inl g ↦
        let x = rw (e, g) at h in
        let is_v : f.value ≡ v = cc in
        let is_key : f.key ≡ key = (bytes_eq_iff f.key key).0 g in
        record {
          before = [];
          after = fs;
          parts = rw (← is_v, ← is_key) refl;
          no_later = absent-by_key key fs e;
        }
  ]
]

not_empty : (s t : Bytes) → not (bytes_eq s t) ≡ true → s ≢ t
not_empty s t h = λ e. absurd (let x : bytes_eq s t ≡ true = (bytes_eq_iff s t).1 e in ground arith)

differ : (s t : Bytes) → s ≢ t → bytes_eq s t ≡ false
differ s t h = elim (Bool-cases (bytes_eq s t)) [
  | inl e ↦ absurd (h ((bytes_eq_iff s t).0 e))
  | inr e ↦ e
]

string-IsFilled : (v : Value) → string_value_non_empty v ≡ true → IsFilled field_string v
unfolding string_value_non_empty sprint sprint_scalar
string-IsFilled (scalar null) h = absurd cc
string-IsFilled (scalar (text s)) h = not_empty s [] h
string-IsFilled (scalar (printed s)) h =
    (not_empty s [] (ground arith), not_empty s (codes "<nil>") (ground arith))
string-IsFilled (strings l) h = tt
string-IsFilled (values l) h = tt

IsFilled-string : (v : Value) → IsFilled field_string v → string_value_non_empty v ≡ true
unfolding string_value_non_empty sprint sprint_scalar bytes_eq
IsFilled-string (scalar null) h = absurd h
IsFilled-string (scalar (text s)) h = rw (differ s [] h) refl
IsFilled-string (scalar (printed s)) (h, k) = rw (differ s [] h, differ s (codes "<nil>") k) refl
IsFilled-string (strings l) h = refl
IsFilled-string (values l) h = refl

strings-IsFilled : (v : Value) → has_item (string_list v) ≡ true → IsFilled field_strings v
unfolding string_list scalar_strings
strings-IsFilled (scalar null) h = absurd cc
strings-IsFilled (scalar (text s)) h = absurd cc
strings-IsFilled (scalar (printed s)) h = absurd cc
strings-IsFilled (strings []) h = absurd cc
strings-IsFilled (strings (s ∷ l)) h = tt
strings-IsFilled (values []) h = absurd cc
strings-IsFilled (values (s ∷ l)) h = tt

filled-strings : (v : Value) → IsFilled field_strings v → has_item (string_list v) ≡ true
unfolding string_list scalar_strings
filled-strings (scalar s) h = absurd h
filled-strings (strings []) h = absurd h
filled-strings (strings (s ∷ l)) h = refl
filled-strings (values []) h = absurd h
filled-strings (values (s ∷ l)) h = refl

populated-IsFilled : (t : FieldType) (v : Value) → field_populated t (some v) ≡ true → IsFilled t v
unfolding field_populated
populated-IsFilled field_string v h = string-IsFilled v h
populated-IsFilled field_strings v h = strings-IsFilled v h
populated-IsFilled field_int v h = tt
populated-IsFilled field_bool v h = tt
populated-IsFilled (field_other s) v h = tt

filled-populated : (t : FieldType) (v : Value) → IsFilled t v → field_populated t (some v) ≡ true
unfolding field_populated
filled-populated field_string v h = IsFilled-string v h
filled-populated field_strings v h = filled-strings v h
filled-populated field_int v h = refl
filled-populated field_bool v h = refl
filled-populated (field_other s) v h = refl

pub supplied-populated :
    (custom : List Field) (name : Bytes) (t : FieldType)
    → IsSupplied custom name t
    → field_populated t (by_key name custom) ≡ true
supplied-populated custom name t (v, last, filled) =
    ap (λ (o : Option Value). field_populated t o)
      (ap (by_key name) last.parts ∙ by_key-last name v last.before last.after last.no_later)
    ∙ filled-populated t v filled

pub populated-IsSupplied :
    (custom : List Field) (name : Bytes) (t : FieldType)
    → field_populated t (by_key name custom) ≡ true
    → IsSupplied custom name t
unfolding field_populated
populated-IsSupplied custom name t h = elim (Option-cases (by_key name custom)) [
  | inl e ↦ absurd (let x = rw (e, field_populated) at h in cc)
  | inr (v, e) ↦ (v, by_key-IsLast name custom v e, populated-IsFilled t v (rw e at h))
]
