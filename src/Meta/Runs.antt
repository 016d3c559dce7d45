-- ===== src/Meta/Runs.antt =====
-- internal/writeengine/meta.go: what a call of `tk meta` that succeeds went through.
use tk.Prelude.{
  Bool, Option, none, some, List, Bytes, ◌≡◌, ◌≢◌, refl, ◌∙◌, ap, Bool-cases, Option-cases, inl,
  inr, ◌⊎◌,
}
use tk.Id.{has_byte}
use tk.Session.{Session, start_write}
use tk.Depgate.{Ticket}
use tk.Frontmatter.{Model, canonical_meta_key}
use tk.Schema.{FieldDecl, Schema, missing_required}
use tk.Placement.{Answer, answer, failure, resolve_write_row, query_of}
use tk.Meta.{
  Builtin, builtin_of, MetaOp, MetaKeyClass, immutable, meta_get_value, classify_meta_key,
  class_refusal, builtin_class, builtin_field, done,
}
use tk.Meta.Changes.{apply_meta_mutation}
use tk.Meta.Write.{
  MetaInput, MetaResult, meta, of_class, of_row_answer, guarded, edge_value, depends_refusal,
  rewrite,
}
use tk.Meta.Keys.{meta_get_value-IsFrame}
use tk.Meta.Frame.{Outcome-cases, apply_meta_mutation-IsFrame}

classify-immutable :
    (k : Bytes) (schema : Schema) {b : Builtin}
    → builtin_of k ≡ some b
    → builtin_class b ≡ immutable
    → (f : FieldDecl) × (classify_meta_key k schema ≡ some (immutable, f))
unfolding classify_meta_key
classify-immutable k schema {b} e h = (builtin_field immutable, rw (e, h, classify_meta_key) refl)

module _ (by_id : Bytes → Bytes → List Ticket) (registered : Bytes → Bool)
    (reachable : Bytes → Bool) (rows_of : Bool → Bytes → List Ticket)
    (read_model : Bytes → Option Model) where
  -- The path through the handler of a call that succeeds.
  pub data Run (schema : Schema) (scope : Bytes) (input : MetaInput) (r : MetaResult) : Type 0 where
    run :
        (class : MetaKeyClass) (field : FieldDecl) (value : Bytes) (m : Model)
        → classify_meta_key (canonical_meta_key input.key) schema ≡ some (class, field)
        → class_refusal input.op class ≡ none
        → resolve_write_row (rows_of input.lookup.by_full (query_of input.lookup)) ≡ answer r.row
        → edge_value scope (canonical_meta_key input.key) input.value ≡ some value
        → depends_refusal by_id registered reachable input.op
            (canonical_meta_key input.key)
            r.row
            scope
            value
          ≡ none
        → read_model r.row.path ≡ some m
        → apply_meta_mutation m input.op (canonical_meta_key input.key) value field ≡ done r.written
        → Run schema scope input r

  rewrite-done :
      (schema : Schema) (op : MetaOp) (key value : Bytes) (field : FieldDecl) (p : Ticket)
      {r : MetaResult}
      → rewrite by_id registered reachable rows_of read_model schema op key value field p ≡ done r
      → (p ≡ r.row)
        × ((m : Model) × (read_model p.path ≡ some m)
            × (apply_meta_mutation m op key value field ≡ done r.written))
  rewrite-done schema op key value field p {r} h = elim (Option-cases (read_model p.path)) [
    | inl e ↦ absurd (let x = rw (e, rewrite) at h in cc)
    | inr (m, e) ↦ elim (Outcome-cases (apply_meta_mutation m op key value field)) [
      | inr (q, f) ↦ absurd (let x = rw (e, f, rewrite) at h in cc)
      | inl (m', f) ↦
          let x = rw (e, f, rewrite) at h in
          let same : (record {
            row = p;
            written = m';
            required_missing = missing_required schema m';
          })
              ≡ r =
            cc in
          (
            ap (λ (q : MetaResult). q.row) same,
            (m, e, f ∙ ap (λ (q : MetaResult). done q.written) same),
          )
    ]
  ]

  pub meta-Run :
      (session : Session) (schema : Schema) (scope : Bytes) (input : MetaInput) {r : MetaResult}
      → meta by_id registered reachable rows_of read_model session schema scope input ≡ done r
      → Run schema scope input r
  unfolding meta
  meta-Run session schema scope input {r} h = elim (Bool-cases (has_byte input.value b'\n')) [
    | inl e ↦ absurd (let x = rw (e, meta) at h in cc)
    | inr e ↦ elim (Option-cases (start_write session)) [
      | inr (bad, f) ↦ absurd (let x = rw (e, f, meta) at h in cc)
      | inl f ↦ of_class_of (classify_meta_key key schema) refl (rw (e, f, meta) at h)
    ]
  ]
    where
      key : Bytes
      key = canonical_meta_key input.key

      found : Answer Ticket
      found = resolve_write_row (rows_of input.lookup.by_full (query_of input.lookup))

      of_row_of :
          (class : MetaKeyClass) (field : FieldDecl)
          → classify_meta_key key schema ≡ some (class, field)
          → class_refusal input.op class ≡ none
          → (a : Answer Ticket) → found ≡ a
          → of_row_answer by_id registered reachable rows_of read_model schema scope input.op key
              input.value field a
            ≡ done r
          → Run schema scope input r
      of_row_of class field c g (failure f) q x = absurd cc
      of_row_of class field c g (answer p) q x =
          elim (Option-cases (edge_value scope key input.value)) [
            | inl n ↦ absurd (let y = rw (n, of_row_answer, guarded) at x in cc)
            | inr (v, n) ↦
                elim (Option-cases
                  (depends_refusal by_id registered reachable input.op key p scope v)) [
                    | inr (bad, d) ↦ absurd (let y = rw (n, d, of_row_answer, guarded) at x in cc)
                    | inl d ↦
                        let (is_p, (m, read, applied)) =
                          rewrite-done schema input.op key v field p
                            (rw (n, d, of_row_answer, guarded) at x) in
                        run class field v m c g (rw (← is_p) q) n (rw (← is_p) d) (rw (← is_p) read)
                          applied
                  ]
          ]

      of_class_of :
          (o : Option (MetaKeyClass × FieldDecl))
          → classify_meta_key key schema ≡ o
          → of_class by_id registered reachable rows_of read_model schema scope input key o ≡ done r
          → Run schema scope input r
      of_class_of none c x = absurd cc
      of_class_of (some (class, field)) c x = elim (Option-cases (class_refusal input.op class)) [
        | inr (bad, g) ↦ absurd (let y = rw (g, of_class) at x in cc)
        | inl g ↦ of_row_of class field c g found refl (rw (g, of_class) at x)
      ]

  -- A call of `tk meta` that succeeds leaves every other key as it reads, and it never changes the id,
  -- the status, the order, the two times or the status conflict.
  pub meta-other_keys :
      (session : Session) (schema : Schema) (scope : Bytes) (input : MetaInput) {r : MetaResult}
      → meta by_id registered reachable rows_of read_model session schema scope input ≡ done r
      → (m : Model) × (read_model r.row.path ≡ some m)
        × ((k : Bytes) (class : MetaKeyClass) (field : FieldDecl)
            → (k ≢ canonical_meta_key input.key)
              ⊎ ((b : Builtin) × (builtin_of k ≡ some b) × (builtin_class b ≡ immutable))
            → meta_get_value r.written k class field ≡ meta_get_value m k class field)
  meta-other_keys session schema scope input {r} h = elim (meta-Run session schema scope input h) [
    | run class field value m c g row edge dep read applied ↦
        let frame =
          apply_meta_mutation-IsFrame m input.op (canonical_meta_key input.key) value field
            applied in
        (
          m,
          read,
          λ k class' field' other.
              meta_get_value-IsFrame (canonical_meta_key input.key) m r.written frame k
                (elim other [
                  | inl ne ↦ ne
                  | inr (b, e, fixed) ↦ λ same. absurd (
                      let (f, x) = classify-immutable k schema e fixed in
                      let y : classify_meta_key (canonical_meta_key input.key) schema
                          ≡ some (immutable, f) =
                        rw same at x in
                      let is_fixed : class ≡ immutable = cc in
                      let z : class_refusal input.op immutable ≡ none = rw is_fixed at g in cc)
                ])
                class' field',
        )
  ]
