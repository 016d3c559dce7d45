-- ===== src/Meta/Keys.antt =====
-- internal/writeengine/meta.go: the keys that a rewritten item leaves alone.
use tk.Prelude.{
  false, none, some, List, [], ◌∷◌, Bytes, ◌≡◌, ◌≢◌, refl, sym, ◌∙◌, ◌||◌, arith, ap, bytes_eq,
  bytes_eq_iff, Bool-cases, Option-cases, inl, inr,
}
use tk.Frontmatter.{Value, Field, Model, remove_custom, without_key, has_custom}
use tk.Schema.{FieldDecl}
use tk.Meta.{
  Builtin, id_key, status_key, changed_key, order_key, depends_key, related_key, tags_key,
  created_key, links_key, summary_key, status_conflict_key, wire, find_builtin, builtin_of,
  builtin_order, MetaKeyClass, custom_value, set_custom, get_builtin, get_custom, meta_get_value,
  is_multi, is_strings,
}

find_builtin-wire :
    (key : Bytes) (bs : List Builtin) {b : Builtin} → find_builtin key bs ≡ some b → key ≡ wire b
unfolding find_builtin
find_builtin-wire key [] h = absurd cc
find_builtin-wire key (c ∷ bs) {b} h = elim (Bool-cases (bytes_eq key (wire c))) [
  | inl e ↦
      let x = rw e at h in let same : c ≡ b = cc in (bytes_eq_iff key (wire c)).0 e ∙ ap wire same
  | inr e ↦ find_builtin-wire key bs (rw e at h)
]

pub builtin_of-wire : (key : Bytes) {b : Builtin} → builtin_of key ≡ some b → key ≡ wire b
unfolding builtin_of
builtin_of-wire key h = find_builtin-wire key builtin_order h

differ : (a b : Bytes) → a ≢ b → bytes_eq a b ≡ false
differ a b h = elim (Bool-cases (bytes_eq a b)) [
  | inl e ↦ absurd (h ((bytes_eq_iff a b).0 e))
  | inr e ↦ e
]

pub custom_value-set_custom :
    (fs : List Field) (key : Bytes) (v : Value) → custom_value (set_custom fs key v) key ≡ some v
unfolding custom_value set_custom
custom_value-set_custom [] key v = rw ((bytes_eq_iff key key).1 refl) refl
custom_value-set_custom (f ∷ fs) key v = elim (Bool-cases (bytes_eq f.key key)) [
  | inl e ↦ rw (e, e) refl
  | inr e ↦ rw (e, e) (custom_value-set_custom fs key v)
]

custom_value-set_other :
    (fs : List Field) (key : Bytes) (v : Value) (k : Bytes)
    → k ≢ key
    → custom_value (set_custom fs key v) k ≡ custom_value fs k
unfolding custom_value set_custom
custom_value-set_other [] key v k ne = rw (differ key k (λ e. ne (sym e))) refl
custom_value-set_other (f ∷ fs) key v k ne = elim (Bool-cases (bytes_eq f.key key)) [
  | inl e ↦
      let no : bytes_eq f.key k ≡ false =
        differ f.key k (λ q. ne (sym q ∙ (bytes_eq_iff f.key key).0 e)) in
      rw (e, no) refl
  | inr e ↦ elim (Bool-cases (bytes_eq f.key k)) [
    | inl g ↦ rw (e, g) refl
    | inr g ↦ rw (e, g) (custom_value-set_other fs key v k ne)
  ]
]

custom_value-without :
    (fs : List Field) (key : Bytes) → custom_value (without_key key fs) key ≡ none
unfolding custom_value without_key
custom_value-without [] key = refl
custom_value-without (f ∷ fs) key = elim (Bool-cases (bytes_eq f.key key)) [
  | inl e ↦ rw e (custom_value-without fs key)
  | inr e ↦ rw (e, e) (custom_value-without fs key)
]

custom_value-absent :
    (fs : List Field) (key : Bytes) → has_custom key fs ≡ false → custom_value fs key ≡ none
unfolding custom_value has_custom
custom_value-absent [] key h = refl
custom_value-absent (f ∷ fs) key h = ground (arith, custom_value-absent fs key)

custom_value-without_other :
    (fs : List Field) (key k : Bytes)
    → k ≢ key
    → custom_value (without_key key fs) k ≡ custom_value fs k
unfolding custom_value without_key
custom_value-without_other [] key k ne = refl
custom_value-without_other (f ∷ fs) key k ne = elim (Bool-cases (bytes_eq f.key key)) [
  | inl e ↦
      let no : bytes_eq f.key k ≡ false =
        differ f.key k (λ q. ne (sym q ∙ (bytes_eq_iff f.key key).0 e)) in
      rw (e, no) (custom_value-without_other fs key k ne)
  | inr e ↦ elim (Bool-cases (bytes_eq f.key k)) [
    | inl g ↦ rw (e, g) refl
    | inr g ↦ rw (e, g) (custom_value-without_other fs key k ne)
  ]
]

-- The model with other custom items.
abbrev pub customs_of : Model → List Field → Model
customs_of m fs = record m { custom = fs }

pub get_builtin-customs :
    (m : Model) (fs : List Field) (b : Builtin) → get_builtin (customs_of m fs) b ≡ get_builtin m b
unfolding get_builtin
get_builtin-customs m fs id_key = refl
get_builtin-customs m fs status_key = refl
get_builtin-customs m fs changed_key = refl
get_builtin-customs m fs order_key = refl
get_builtin-customs m fs depends_key = refl
get_builtin-customs m fs related_key = refl
get_builtin-customs m fs tags_key = refl
get_builtin-customs m fs created_key = refl
get_builtin-customs m fs links_key = refl
get_builtin-customs m fs summary_key = refl
get_builtin-customs m fs status_conflict_key = refl

-- Two models that differ in one key at most.
pub record IsFrame (key : Bytes) (m m' : Model) : Type 0 where
  pub builtins : (b : Builtin) → wire b ≢ key → get_builtin m' b ≡ get_builtin m b
  pub customs : (k : Bytes) → k ≢ key → custom_value m'.custom k ≡ custom_value m.custom k

pub meta_get_value-builtin :
    (m : Model) (k : Bytes) (class : MetaKeyClass) (field : FieldDecl) {b : Builtin}
    → builtin_of k ≡ some b
    → meta_get_value m k class field ≡ some (get_builtin m b)
unfolding meta_get_value
meta_get_value-builtin m k class field e = rw (e, meta_get_value) refl

pub meta_get_value-custom :
    (m : Model) (k : Bytes) (class : MetaKeyClass) (field : FieldDecl)
    → builtin_of k ≡ none
    → meta_get_value m k class field
      ≡ get_custom (custom_value m.custom k) (is_multi class || is_strings field.type)
unfolding meta_get_value
meta_get_value-custom m k class field e = rw (e, meta_get_value) refl

pub meta_get_value-IsFrame :
    (key : Bytes) (m m' : Model)
    → IsFrame key m m'
    → (k : Bytes) → k ≢ key
    → (class : MetaKeyClass) (field : FieldDecl)
    → meta_get_value m' k class field ≡ meta_get_value m k class field
meta_get_value-IsFrame key m m' f k ne class field = elim (Option-cases (builtin_of k)) [
  | inl e ↦
      rw
        (
          meta_get_value-custom m' k class field e,
          meta_get_value-custom m k class field e,
          f.customs k ne,
        )
        refl
  | inr (b, e) ↦
      let same = builtin_of-wire k e in
      rw
        (
          meta_get_value-builtin m' k class field e,
          meta_get_value-builtin m k class field e,
          f.builtins b (λ q. ne (same ∙ q)),
        )
        refl
]

pub remove_custom-none :
    (m : Model) (key : Bytes) → custom_value (remove_custom m key).0.custom key ≡ none
unfolding remove_custom
remove_custom-none m key = elim (Bool-cases (has_custom key m.custom)) [
  | inl e ↦ rw e (custom_value-without m.custom key)
  | inr e ↦ rw e (custom_value-absent m.custom key e)
]

pub set_custom-IsFrame :
    (key : Bytes) (m : Model) (v : Value) → IsFrame key m (customs_of m (set_custom m.custom key v))
set_custom-IsFrame key m v = record {
  builtins = λ b ne. get_builtin-customs m (set_custom m.custom key v) b;
  customs = λ k ne. custom_value-set_other m.custom key v k ne;
}

pub remove_custom-IsFrame : (key : Bytes) (m : Model) → IsFrame key m (remove_custom m key).0
unfolding remove_custom
remove_custom-IsFrame key m = elim (Bool-cases (has_custom key m.custom)) [
  | inl e ↦ rw e (record {
    builtins = λ b ne. get_builtin-customs m (without_key key m.custom) b;
    customs = λ k ne. custom_value-without_other m.custom key k ne;
  })
  | inr e ↦ rw e (record { builtins = λ b ne. refl; customs = λ k ne. refl })
]
