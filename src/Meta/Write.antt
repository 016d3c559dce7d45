-- ===== src/Meta/Write.antt =====
-- internal/writeengine/meta.go: the handler of `tk meta set|add|remove`.
use tk.Prelude.{
  Bool, ◌&&◌, ◌||◌, not, Option, none, some, List, Bytes, bytes_eq, any, if◌then◌else◌,
}
use tk.Id.{scope_of_full_id, has_byte}
use tk.Session.{Session, start_write}
use tk.Depgate.{Ticket}
use tk.Frontmatter.{Model, canonical_meta_key, key_depends, key_related}
use tk.Schema.{FieldDecl, Schema, missing_required}
use tk.Placement.{Lookup, query_of, Answer, answer, failure, resolve_write_row}
use tk.Meta.{
  MetaOp, MetaKeyClass, Refusal, usage, unsupported_type, depends_self, depends_dangling,
  depends_unresolvable, unreadable, of_row, of_session, Outcome, done, refused, classify_meta_key,
  class_refusal, is_add, normalise_edge_value,
}
use tk.Meta.Changes.{apply_meta_mutation}

pub record MetaInput : Type 0 where
  pub lookup : Lookup
  pub op : MetaOp
  pub key : Bytes
  pub value : Bytes

-- The parts of `Result` that a call settles, with the model that it writes.
pub record MetaResult : Type 0 where
  pub row : Ticket
  pub written : Model
  pub required_missing : List Bytes

abbrev pub edge_value : Bytes → Bytes → Bytes → Option Bytes
edge_value scope key value =
    if bytes_eq key key_depends || bytes_eq key key_related
    then normalise_edge_value scope value
    else some value

module _ (by_id : Bytes → Bytes → List Ticket) (registered : Bytes → Bool)
    (reachable : Bytes → Bool) where
  unfoldable pub non_quarantined_exists : Bytes → Bytes → Bool
  non_quarantined_exists scope full = any (λ (r : Ticket). not r.parse_error) (by_id scope full)

  -- `checkDependsAdd`; `none` is its success.
  unfoldable pub check_depends_add : Bytes → Bytes → Bytes → Option Refusal
  unfolding non_quarantined_exists scope_of_full_id
  check_depends_add subject_id subject_scope target =
      let target_scope = scope_of_full_id target in
      if bytes_eq target subject_id
      then some depends_self
      else if bytes_eq target_scope subject_scope
      then (if not (non_quarantined_exists subject_scope target)
          then some depends_dangling
          else none)
      else if not (registered target_scope)
      then some depends_unresolvable
      else if not (reachable target_scope)
      then some depends_unresolvable
      else if not (non_quarantined_exists target_scope target)
      then some depends_unresolvable
      else none

  abbrev pub depends_refusal : MetaOp → Bytes → Ticket → Bytes → Bytes → Option Refusal
  depends_refusal op key p scope value =
      if is_add op && bytes_eq key key_depends then check_depends_add p.id scope value else none

  module _ (rows_of : Bool → Bytes → List Ticket) (read_model : Bytes → Option Model) where
    -- The part of `Meta` from the reading of the file on.
    abbrev pub rewrite : Schema → MetaOp → Bytes → Bytes → FieldDecl → Ticket → Outcome MetaResult
    rewrite schema op key value field p = elim (read_model p.path) [
      | none ↦ refused unreadable
      | some m ↦ elim (apply_meta_mutation m op key value field) [
        | refused r ↦ refused r
        | done m' ↦
            done (record { row = p; written = m'; required_missing = missing_required schema m' })
      ]
    ]

    abbrev pub guarded :
        Schema → Bytes → MetaOp → Bytes → Bytes → FieldDecl → Ticket → Outcome MetaResult
    guarded schema scope op key value field p = elim (edge_value scope key value) [
      | none ↦ refused usage
      | some v ↦ elim (depends_refusal op key p scope v) [
        | some r ↦ refused r
        | none ↦ rewrite schema op key v field p
      ]
    ]

    abbrev pub of_row_answer :
        Schema → Bytes → MetaOp → Bytes → Bytes → FieldDecl → Answer Ticket → Outcome MetaResult
    of_row_answer schema scope op key value field (failure f) = refused (of_row f)
    of_row_answer schema scope op key value field (answer p) =
        guarded schema scope op key value field p

    abbrev pub of_class :
        Schema → Bytes → MetaInput → Bytes → Option (MetaKeyClass × FieldDecl) → Outcome MetaResult
    of_class schema scope input key none = refused unsupported_type
    of_class schema scope input key (some (class, field)) = elim (class_refusal input.op class) [
      | some r ↦ refused r
      | none ↦
          of_row_answer schema scope input.op key input.value field
            (resolve_write_row (rows_of input.lookup.by_full (query_of input.lookup)))
    ]

    unfoldable pub meta : Session → Schema → Bytes → MetaInput → Outcome MetaResult
    unfolding canonical_meta_key classify_meta_key resolve_write_row query_of check_depends_add
        normalise_edge_value apply_meta_mutation missing_required has_byte start_write
    meta session schema scope input =
        if has_byte input.value b'\n' then refused usage else elim (start_write session) [
          | some e ↦ refused (of_session e)
          | none ↦
              of_class schema scope input (canonical_meta_key input.key)
                (classify_meta_key (canonical_meta_key input.key) schema)
        ]
