-- ===== src/Meta/Lists.antt =====
-- internal/writeengine/meta.go: adding to a list of a ticket and removing from it.
use tk.Prelude.{
  false, Option, none, some, List, [], ◌∷◌, ◌++◌, Bytes, ◌≡◌, ◌≢◌, refl, sym, ◌∙◌, ap, bytes_eq,
  bytes_eq_iff, contains, Bool-cases, Option-cases, inl, inr,
}
use tk.Frontmatter.{Model, string_list, strings, remove_custom}
use tk.Schema.{FieldDecl}
use tk.Meta.{
  Builtin, depends_key, related_key, tags_key, links_key, builtin_of, MetaOp, meta_add, meta_remove,
  MetaKeyClass, custom_value, set_custom, meta_get_value, done,
}
use tk.Meta.Changes.{
  outside, remove_first, mutate_string_list, built_in_list, put_list, put_custom_list, or_null,
  apply_meta_list_op, apply_meta_mutation,
}
use tk.Meta.Keys.{custom_value-set_custom, remove_custom-none, meta_get_value-IsFrame}
use tk.Meta.Frame.{in_builtin, in_custom, list_round, apply_meta_mutation-IsFrame}

-- The list that a key reads as; `none` where a custom item is not a list.
unfoldable pub list_at : Model → Bytes → Option (List Bytes)
unfolding builtin_of custom_value string_list
list_at m key = elim (built_in_list m (builtin_of key)) [
  | some l ↦ some l
  | none ↦ string_list (or_null (custom_value m.custom key))
]

list_at-builtin :
    (m : Model) (key : Bytes) {b : Builtin} {l : List Bytes}
    → builtin_of key ≡ some b
    → built_in_list m (some b) ≡ some l
    → list_at m key ≡ some l
unfolding list_at
list_at-builtin m key e h = rw (e, h, list_at) refl

list_at-custom :
    (m : Model) (key : Bytes)
    → built_in_list m (builtin_of key) ≡ none
    → list_at m key ≡ string_list (or_null (custom_value m.custom key))
unfolding list_at
list_at-custom m key h = rw (h, list_at) refl

built_in_list-put_list :
    (m : Model) (b : Builtin) (next : List Bytes) {l : List Bytes}
    → built_in_list m (some b) ≡ some l
    → built_in_list (put_list m (some b) next) (some b) ≡ some next
built_in_list-put_list m depends_key next h = refl
built_in_list-put_list m related_key next h = refl
built_in_list-put_list m tags_key next h = refl
built_in_list-put_list m links_key next h = refl
built_in_list-put_list m _ next h = absurd cc

-- Whether a key has a list does not hang on the model.
built_in_list-none :
    (m m' : Model) (o : Option Builtin) → built_in_list m o ≡ none → built_in_list m' o ≡ none
built_in_list-none m m' none h = refl
built_in_list-none m m' (some depends_key) h = absurd cc
built_in_list-none m m' (some related_key) h = absurd cc
built_in_list-none m m' (some tags_key) h = absurd cc
built_in_list-none m m' (some links_key) h = absurd cc
built_in_list-none m m' (some _) h = refl

list_at-put_custom_list :
    (m : Model) (key : Bytes) (next : List Bytes)
    → built_in_list m (builtin_of key) ≡ none
    → list_at (put_custom_list m key next) key ≡ some next
unfolding put_custom_list string_list
list_at-put_custom_list m key [] h =
    rw
      (
        list_at-custom (remove_custom m key).0 key
            (built_in_list-none m (remove_custom m key).0 (builtin_of key) h),
        remove_custom-none m key,
      )
      refl
list_at-put_custom_list m key (s ∷ l) h =
    let m' : Model = record m { custom = set_custom m.custom key (strings (s ∷ l)) } in
    rw
      (
        list_at-custom m' key (built_in_list-none m m' (builtin_of key) h),
        custom_value-set_custom m.custom key (strings (s ∷ l)),
      )
      refl

-- The list of a key before and after an operation.
pub list_at-step :
    (m : Model) (op : MetaOp) (key value : Bytes) (field : FieldDecl) {m' : Model}
    → apply_meta_list_op m op key value field ≡ done m'
    → (l next : List Bytes) × (list_at m key ≡ some l)
      × (mutate_string_list l op value field ≡ done next)
      × (list_at m' key ≡ some next)
list_at-step m op key value field h = elim (list_round m op key value field h) [
  | in_builtin b l next n e f same ↦ (
    l,
    next,
    list_at-builtin m key n e,
    f,
    rw same (list_at-builtin (put_list m (some b) next) key n (built_in_list-put_list m b next e)),
  )
  | in_custom l next n e f same ↦
      (l, next, list_at-custom m key n ∙ e, f, rw same (list_at-put_custom_list m key next n))
]

-- A list operation succeeds wherever the list is read and its own step does.
apply_meta_list_op-total :
    (m : Model) (op : MetaOp) (key value : Bytes) (field : FieldDecl) {l next : List Bytes}
    → list_at m key ≡ some l
    → mutate_string_list l op value field ≡ done next
    → (m' : Model) × (apply_meta_list_op m op key value field ≡ done m')
unfolding apply_meta_list_op
apply_meta_list_op-total m op key value field {l} {next} h k =
    elim (Option-cases (built_in_list m (builtin_of key))) [
      | inr (l', e) ↦
          let x : some l' ≡ some l = unfold list_at in rw (e, list_at) at h in
          let same : l' ≡ l = cc in
          let k' : mutate_string_list l' op value field ≡ done next = rw same k in
          (put_list m (builtin_of key) next, rw (e, k', apply_meta_list_op) refl)
      | inl e ↦
          let read = sym (list_at-custom m key e) ∙ h in
          (put_custom_list m key next, rw (e, read, k, apply_meta_list_op) refl)
    ]

remove_first-last :
    (l : List Bytes) (v : Bytes) → contains l v ≡ false → remove_first v (l ++ v ∷ []) ≡ l
unfolding remove_first contains
remove_first-last [] v h = rw ((bytes_eq_iff v v).1 refl) refl
remove_first-last (e ∷ l) v h = elim (Bool-cases (bytes_eq e v)) [
  | inl q ↦ absurd (let x = rw q at h in cc)
  | inr q ↦ let x = rw q at h in rw q (ap (◌∷◌ e) (remove_first-last l v x))
]

added :
    (l : List Bytes) (v : Bytes) (field : FieldDecl) {next : List Bytes}
    → mutate_string_list l meta_add v field ≡ done next
    → contains l v ≡ false
    → next ≡ l ++ v ∷ []
unfolding mutate_string_list
added l v field h k = elim (Bool-cases (outside field.enum v)) [
  | inl e ↦ absurd (let x = rw e at h in cc)
  | inr e ↦ let x = rw (e, k) at h in cc
]

-- What is added to a list of a ticket can be removed again: where the list of the key does not have the
-- value, an addition that succeeds puts it last, the removal of it then succeeds, and every key
-- reads as it did before the two.
pub remove-add :
    (m : Model) (key value : Bytes) (field : FieldDecl) {m1 : Model} (l : List Bytes)
    → apply_meta_mutation m meta_add key value field ≡ done m1
    → list_at m key ≡ some l
    → contains l value ≡ false
    → (list_at m1 key ≡ some (l ++ value ∷ []))
      × ((m2 : Model) × (apply_meta_mutation m1 meta_remove key value field ≡ done m2)
          × (list_at m2 key ≡ some l)
          × ((k : Bytes)
              → k ≢ key
              → (class : MetaKeyClass) (any_field : FieldDecl)
              → meta_get_value m2 k class any_field ≡ meta_get_value m k class any_field))
unfolding apply_meta_mutation mutate_string_list
remove-add m key value field {m1} l h at absent =
    let (l', next, at', step, after) = list_at-step m meta_add key value field h in
    let same : l' ≡ l = cc in
    let step' : mutate_string_list l meta_add value field ≡ done next = rw same at step in
    let grown : next ≡ l ++ value ∷ [] = added l value field step' absent in
    let after' : list_at m1 key ≡ some (l ++ value ∷ []) = rw grown at after in
    let (m2, run) =
      apply_meta_list_op-total m1 meta_remove key value field
        {next = remove_first value (l ++ value ∷ [])} after' refl in
    let (l2, next2, at2, step2, after2) = list_at-step m1 meta_remove key value field run in
    let same2 : l2 ≡ l ++ value ∷ [] = cc in
    let step2' : done (remove_first value l2) ≡ done next2 = step2 in
    let cut : remove_first value l2 ≡ l = rw same2 (remove_first-last l value absent) in
    let back : next2 ≡ l = cc in
    (
      after',
      (
        m2,
        run,
        rw back at after2,
        λ k ne class any_field.
            meta_get_value-IsFrame key m1 m2
              (apply_meta_mutation-IsFrame m1 meta_remove key value field run) k ne class any_field
            ∙ meta_get_value-IsFrame key m m1
                (apply_meta_mutation-IsFrame m meta_add key value field h) k ne class any_field,
      ),
    )
