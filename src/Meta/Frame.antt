-- ===== src/Meta/Frame.antt =====
-- internal/writeengine/meta.go: `tk meta` rewrites the one key that it is given.
use tk.Prelude.{
  true, Option, none, some, List, [], ◌∷◌, Bytes, ◌≡◌, ◌≢◌, refl, sym, bytes_eq, Bool-cases,
  Option-cases, inl, inr, ◌⊎◌,
}
use tk.Frontmatter.{Model, remove_custom, string_list, strings}
use tk.Schema.{FieldDecl}
use tk.Meta.{
  Builtin, id_key, status_key, changed_key, order_key, depends_key, related_key, tags_key,
  created_key, links_key, summary_key, status_conflict_key, wire, builtin_of, MetaOp, meta_set,
  meta_add, meta_remove, Refusal, custom_value, set_custom, get_builtin, Outcome, done, refused,
}
use tk.Meta.Changes.{
  parse_scalar_value, is_summary, apply_meta_set, mutate_string_list, built_in_list, put_list,
  put_custom_list, or_null, apply_meta_list_op, apply_meta_mutation,
}
use tk.Meta.Keys.{builtin_of-wire, IsFrame, set_custom-IsFrame, remove_custom-IsFrame}

pub Outcome-cases :
    {A : Type 0} (o : Outcome A) → ((a : A) × (o ≡ done a)) ⊎ ((r : Refusal) × (o ≡ refused r))
Outcome-cases (done a) = inl (a, refl)
Outcome-cases (refused r) = inr (r, refl)

summary-IsFrame : (m : Model) (v : Bytes) → IsFrame (wire summary_key) m (record m { summary = v })
unfolding get_builtin
summary-IsFrame m v = record { builtins = go; customs = λ k ne. refl }
  where
    go :
        (b : Builtin)
        → wire b ≢ wire summary_key
        → get_builtin (record m { summary = v }) b ≡ get_builtin m b
    go id_key ne = refl
    go status_key ne = refl
    go changed_key ne = refl
    go order_key ne = refl
    go depends_key ne = refl
    go related_key ne = refl
    go tags_key ne = refl
    go created_key ne = refl
    go links_key ne = refl
    go summary_key ne = absurd (ne refl)
    go status_conflict_key ne = refl

-- The list of a key is replaced, by the four keys that have one.
put_list-IsFrame :
    (m : Model) (b : Builtin) (l : List Bytes) → IsFrame (wire b) m (put_list m (some b) l)
unfolding get_builtin
put_list-IsFrame m b l = record { builtins = go b; customs = same b }
  where
    same :
        (b : Builtin) (k : Bytes)
        → k ≢ wire b
        → custom_value (put_list m (some b) l).custom k ≡ custom_value m.custom k
    same depends_key k ne = refl
    same related_key k ne = refl
    same tags_key k ne = refl
    same links_key k ne = refl
    same _ k ne = refl

    go : (b c : Builtin) → wire c ≢ wire b → get_builtin (put_list m (some b) l) c ≡ get_builtin m c
    go depends_key depends_key ne = absurd (ne refl)
    go related_key related_key ne = absurd (ne refl)
    go tags_key tags_key ne = absurd (ne refl)
    go links_key links_key ne = absurd (ne refl)
    go depends_key _ ne = refl
    go related_key _ ne = refl
    go tags_key _ ne = refl
    go links_key _ ne = refl
    go _ c ne = refl

is_summary-key : (key : Bytes) → is_summary (builtin_of key) ≡ true → key ≡ wire summary_key
is_summary-key key h = go (builtin_of key) refl h
  where
    go : (o : Option Builtin) → builtin_of key ≡ o → is_summary o ≡ true → key ≡ wire summary_key
    go (some summary_key) e h = builtin_of-wire key e
    go none e h = absurd cc
    go (some _) e h = absurd cc

apply_meta_set-IsFrame :
    (m : Model) (key value : Bytes) (field : FieldDecl) {m' : Model}
    → apply_meta_set m key value field ≡ done m'
    → IsFrame key m m'
unfolding apply_meta_set
apply_meta_set-IsFrame m key value field {m'} h = elim (Bool-cases (is_summary (builtin_of key))) [
  | inl e ↦
      let x = rw e at h in
      let same : record m { summary = value } ≡ m' = cc in
      rw (← same, is_summary-key key e) (summary-IsFrame m value)
  | inr e ↦ elim (Bool-cases (bytes_eq value [])) [
    | inl f ↦
        let x = rw (e, f) at h in
        let same : (remove_custom m key).0 ≡ m' = cc in rw (← same) (remove_custom-IsFrame key m)
    | inr f ↦ elim (Outcome-cases (parse_scalar_value field value)) [
      | inl (v, g) ↦
          let x = rw (e, f, g) at h in
          let same : record m { custom = set_custom m.custom key v } ≡ m' = cc in
          rw (← same) (set_custom-IsFrame key m v)
      | inr (r, g) ↦ absurd (let x = rw (e, f, g) at h in cc)
    ]
  ]
]

put_custom_list-IsFrame :
    (m : Model) (key : Bytes) (l : List Bytes) → IsFrame key m (put_custom_list m key l)
unfolding put_custom_list
put_custom_list-IsFrame m key [] = remove_custom-IsFrame key m
put_custom_list-IsFrame m key (s ∷ l) = set_custom-IsFrame key m (strings (s ∷ l))

-- What a list operation does, by where the list is.
pub data ListRound (m : Model) (op : MetaOp) (key value : Bytes) (field : FieldDecl) (m' : Model)
    : Type 0 where
  in_builtin :
      (b : Builtin) (l next : List Bytes)
      → builtin_of key ≡ some b
      → built_in_list m (some b) ≡ some l
      → mutate_string_list l op value field ≡ done next
      → m' ≡ put_list m (some b) next
      → ListRound m op key value field m'
  in_custom :
      (l next : List Bytes)
      → built_in_list m (builtin_of key) ≡ none
      → string_list (or_null (custom_value m.custom key)) ≡ some l
      → mutate_string_list l op value field ≡ done next
      → m' ≡ put_custom_list m key next
      → ListRound m op key value field m'

pub list_round :
    (m : Model) (op : MetaOp) (key value : Bytes) (field : FieldDecl) {m' : Model}
    → apply_meta_list_op m op key value field ≡ done m'
    → ListRound m op key value field m'
unfolding apply_meta_list_op
list_round m op key value field {m'} h = elim (Option-cases (built_in_list m (builtin_of key))) [
  | inr (l, e) ↦ elim (Outcome-cases (mutate_string_list l op value field)) [
    | inl (next, f) ↦
        let x = rw (e, f, apply_meta_list_op) at h in
        elim (Option-cases (builtin_of key)) [
          | inl n ↦ absurd (let y = rw n at e in cc)
          | inr (b, n) ↦
              let same : put_list m (builtin_of key) next ≡ m' = cc in
              in_builtin b l next n (rw n at e) f (rw n at (sym same))
        ]
    | inr (r, f) ↦ absurd (let x = rw (e, f, apply_meta_list_op) at h in cc)
  ]
  | inl e ↦ elim (Option-cases (string_list (or_null (custom_value m.custom key)))) [
    | inl n ↦ absurd (let x = rw (e, n, apply_meta_list_op) at h in cc)
    | inr (l, n) ↦ elim (Outcome-cases (mutate_string_list l op value field)) [
      | inl (next, f) ↦ let x = rw (e, n, f, apply_meta_list_op) at h in in_custom l next e n f cc
      | inr (r, f) ↦ absurd (let x = rw (e, n, f, apply_meta_list_op) at h in cc)
    ]
  ]
]

apply_meta_list_op-IsFrame :
    (m : Model) (op : MetaOp) (key value : Bytes) (field : FieldDecl) {m' : Model}
    → apply_meta_list_op m op key value field ≡ done m'
    → IsFrame key m m'
apply_meta_list_op-IsFrame m op key value field h = elim (list_round m op key value field h) [
  | in_builtin b l next n e f same ↦ rw (same, builtin_of-wire key n) (put_list-IsFrame m b next)
  | in_custom l next n e f same ↦ rw same (put_custom_list-IsFrame m key next)
]

pub apply_meta_mutation-IsFrame :
    (m : Model) (op : MetaOp) (key value : Bytes) (field : FieldDecl) {m' : Model}
    → apply_meta_mutation m op key value field ≡ done m'
    → IsFrame key m m'
unfolding apply_meta_mutation
apply_meta_mutation-IsFrame m meta_set key value field h =
    apply_meta_set-IsFrame m key value field h
apply_meta_mutation-IsFrame m meta_add key value field h =
    apply_meta_list_op-IsFrame m meta_add key value field h
apply_meta_mutation-IsFrame m meta_remove key value field h =
    apply_meta_list_op-IsFrame m meta_remove key value field h
