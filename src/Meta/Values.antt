-- ===== src/Meta/Values.antt =====
-- internal/writeengine/meta.go: a value that is set is the value that is read.
use tk.Prelude.{
  false, ◌||◌, Option, none, some, [], ◌∷◌, Bytes, codes, ◌≡◌, refl, sym, ◌∙◌, ap, bytes_eq,
  bytes_eq_iff, Bool-cases, Option-cases, inl, inr,
}
use tk.Frontmatter.{Value, scalar, text, printed, Model, remove_custom, sprint}
use tk.Schema.{
  FieldDecl, FieldType, field_string, field_int, field_bool, field_strings, field_other, Schema,
}
use tk.Meta.{
  Builtin, id_key, status_key, changed_key, order_key, depends_key, related_key, tags_key,
  created_key, links_key, summary_key, status_conflict_key, builtin_of, builtin_field, get_builtin,
  meta_set, single, set_custom, get_custom, format_scalar, is_strings, meta_get_value,
  classify_meta_key, done,
}
use tk.Meta.Changes.{outside, parse_int, parse_scalar_value, apply_meta_set, apply_meta_mutation}
use tk.Meta.Keys.{
  custom_value-set_custom, remove_custom-none, meta_get_value-builtin, meta_get_value-custom,
}
use tk.Meta.Frame.{Outcome-cases}

-- What a value of a type reads as: an int in the form that the number is printed in, and any other value
-- as it was given.
abbrev pub reading_of : FieldType → Bytes → Option Bytes
reading_of field_int [] = some []
reading_of field_int (c ∷ cs) = parse_int (c ∷ cs)
reading_of _ value = some value

reading_of-nil : (t : FieldType) → reading_of t [] ≡ some []
reading_of-nil field_string = refl
reading_of-nil field_int = refl
reading_of-nil field_bool = refl
reading_of-nil field_strings = refl
reading_of-nil (field_other t) = refl

int_reading : (w : Bytes) → bytes_eq w [] ≡ false → parse_int w ≡ reading_of field_int w
int_reading [] f = absurd (let x = (bytes_eq_iff [] []).1 refl in cc)
int_reading (c ∷ cs) f = refl

-- A parsed value is no list, and is formatted as its type reads.
parsed-reading :
    (field : FieldDecl) (value : Bytes) {v : Value}
    → bytes_eq value [] ≡ false
    → parse_scalar_value field value ≡ done v
    → (is_strings field.type ≡ false) × (some (format_scalar v) ≡ reading_of field.type value)
unfolding parse_scalar_value sprint
parsed-reading field value {v} full h = go field.type refl
  where
    go :
        (t : FieldType)
        → field.type ≡ t
        → (is_strings t ≡ false) × (some (format_scalar v) ≡ reading_of t value)
    go field_string e = (
      refl,
      elim (Bool-cases (outside field.enum value)) [
        | inl f ↦ absurd (let x = rw (e, f, parse_scalar_value) at h in cc)
        | inr f ↦
            let x = rw (e, f, parse_scalar_value) at h in
            let same : scalar (text value) ≡ v = cc in rw (← same) refl
      ],
    )
    go field_int e = (
      refl,
      elim (Option-cases (parse_int value)) [
        | inl n ↦ absurd (let x = rw (e, n, parse_scalar_value) at h in cc)
        | inr (p, n) ↦
            let x = rw (e, n, parse_scalar_value) at h in
            let same : scalar (printed p) ≡ v = cc in rw (← same) (sym n ∙ int_reading value full)
      ],
    )
    go field_bool e = (
      refl,
      elim (Bool-cases (bytes_eq value (codes "true") || bytes_eq value (codes "false"))) [
        | inl f ↦
            let x = rw (e, f, parse_scalar_value) at h in
            let same : scalar (printed value) ≡ v = cc in rw (← same) refl
        | inr f ↦ absurd (let x = rw (e, f, parse_scalar_value) at h in cc)
      ],
    )
    go field_strings e = absurd (let x = rw (e, parse_scalar_value) at h in cc)
    go (field_other t) e = absurd (let x = rw (e, parse_scalar_value) at h in cc)

-- The two kinds of single keys: the summary, and a declared field.
data SingleKey (key : Bytes) (field : FieldDecl) : Type 0 where
  is_the_summary :
      builtin_of key ≡ some summary_key → field.type ≡ field_string → SingleKey key field
  is_declared : builtin_of key ≡ none → SingleKey key field

single_key :
    (key : Bytes) (schema : Schema) (field : FieldDecl)
    → classify_meta_key key schema ≡ some (single, field)
    → SingleKey key field
unfolding classify_meta_key
single_key key schema field h = go (builtin_of key) refl
  where
    go : (o : Option Builtin) → builtin_of key ≡ o → SingleKey key field
    go none e = is_declared e
    go (some summary_key) e =
        let x = rw (e, classify_meta_key) at h in
        let same : builtin_field single ≡ field = cc in is_the_summary e (rw (← same) refl)
    go (some id_key) e = absurd (let x = rw (e, classify_meta_key) at h in cc)
    go (some status_key) e = absurd (let x = rw (e, classify_meta_key) at h in cc)
    go (some changed_key) e = absurd (let x = rw (e, classify_meta_key) at h in cc)
    go (some order_key) e = absurd (let x = rw (e, classify_meta_key) at h in cc)
    go (some depends_key) e = absurd (let x = rw (e, classify_meta_key) at h in cc)
    go (some related_key) e = absurd (let x = rw (e, classify_meta_key) at h in cc)
    go (some tags_key) e = absurd (let x = rw (e, classify_meta_key) at h in cc)
    go (some created_key) e = absurd (let x = rw (e, classify_meta_key) at h in cc)
    go (some links_key) e = absurd (let x = rw (e, classify_meta_key) at h in cc)
    go (some status_conflict_key) e = absurd (let x = rw (e, classify_meta_key) at h in cc)

-- A key that holds one value reads, after a set that succeeds, as the value that was set: an int in the form
-- that the number is printed in, an empty value as an absent item.
pub get-set :
    (m : Model) (key value : Bytes) (schema : Schema) (field : FieldDecl) {m' : Model}
    → classify_meta_key key schema ≡ some (single, field)
    → apply_meta_mutation m meta_set key value field ≡ done m'
    → meta_get_value m' key single field ≡ reading_of field.type value
unfolding apply_meta_mutation apply_meta_set get_custom get_builtin
get-set m key value schema field {m'} c h = elim (single_key key schema field c) [
  | is_the_summary e t ↦
      let x = rw (e, apply_meta_mutation, apply_meta_set) at h in
      let same : record m { summary = value } ≡ m' = cc in
      let reads : reading_of field.type value ≡ some value =
        ap (λ (q : FieldType). reading_of q value) t in
      rw (← same)
        (meta_get_value-builtin (record m { summary = value }) key single field e ∙ sym reads)
  | is_declared e ↦
      let x = rw (e, apply_meta_mutation, apply_meta_set) at h in
      elim (Bool-cases (bytes_eq value [])) [
        | inl f ↦
            let y = rw f at x in
            let same : (remove_custom m key).0 ≡ m' = cc in
            let empty : value ≡ [] = (bytes_eq_iff value []).0 f in
            rw
              (
                ← same,
                meta_get_value-custom (remove_custom m key).0 key single field e,
                remove_custom-none m key,
                empty,
                reading_of-nil field.type,
              )
              refl
        | inr f ↦ elim (Outcome-cases (parse_scalar_value field value)) [
          | inr (r, g) ↦ absurd (let y = rw (f, g) at x in cc)
          | inl (v, g) ↦
              let y = rw (f, g) at x in
              let same : record m { custom = set_custom m.custom key v } ≡ m' = cc in
              rw
                (
                  ← same,
                  meta_get_value-custom (record m { custom = set_custom m.custom key v }) key single
                      field e,
                  custom_value-set_custom m.custom key v,
                  (parsed-reading field value f g).0,
                )
                (parsed-reading field value f g).1
        ]
      ]
]
