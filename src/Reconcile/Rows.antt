-- ===== src/Reconcile/Rows.antt =====
-- internal/reconcile/parse.go: what is indexed of a ticket file that was written.
use tk.Prelude.{
  Bool, true, false, ◌&&◌, not, Option, some, List, [], ◌∷◌, ◌++◌, map, Bytes, ◌≡◌, refl, ◌∙◌, ap,
  ap₂, arith, any, all, bytes_eq, bytes_eq_iff, Bool-cases, inl, inr,
}
use tk.Id.{is_full_ticket_id}
use tk.Frontmatter.{Field, Value, Model, split, compose, serialize_items}
use tk.Frontmatter.Fence.{AreInterior, unlines, split-compose}
use tk.Frontmatter.Items.{AreCustom, IsReread, reread, with_custom, decode-serialize_items}
use tk.Reconcile.{
  Row, Edge, EdgeKind, edge_depends, edge_related, edges_of, edges_from, adopt_id, base_row,
  short_of, scope_of, index_from_model, contains_conflict_marker, healthy_model, parse_file,
}

abbrev pub targets : List Edge → List Bytes
targets es = map (λ (e : Edge). e.to_id) es

targets-append : (xs ys : List Edge) → targets (xs ++ ys) ≡ targets xs ++ targets ys
targets-append [] ys = refl
targets-append (x ∷ xs) ys = ap (◌∷◌ x.to_id) (targets-append xs ys)

-- Where every entry is a full id, the edges lead to the entries, in their order.
targets-edges_of :
    (base : Row) (kind : EdgeKind) (l : List Bytes)
    → any (λ (t : Bytes). not (is_full_ticket_id t)) l ≡ false
    → targets (edges_of base kind l) ≡ l
unfolding edges_of
targets-edges_of base kind [] h = refl
targets-edges_of base kind (t ∷ l) h = elim (Bool-cases (is_full_ticket_id t)) [
  | inr e ↦ absurd (let x = rw e at h in cc)
  | inl e ↦ let x = rw e at h in rw e (ap (◌∷◌ t) (targets-edges_of base kind l x))
]

abbrev pub is_legal : Edge → Bool
is_legal e = is_full_ticket_id e.to_id && bytes_eq e.to_scope (scope_of e.to_id)

legal-edges_of :
    (base : Row) (kind : EdgeKind) (l : List Bytes) → all is_legal (edges_of base kind l) ≡ true
unfolding edges_of
legal-edges_of base kind [] = refl
legal-edges_of base kind (t ∷ l) = elim (Bool-cases (is_full_ticket_id t)) [
  | inr e ↦ rw e (legal-edges_of base kind l)
  | inl e ↦ rw (e, e, (bytes_eq_iff (scope_of t) (scope_of t)).1 refl) (legal-edges_of base kind l)
]

all-append' :
    (xs ys : List Edge)
    → all is_legal xs ≡ true
    → all is_legal ys ≡ true
    → all is_legal (xs ++ ys) ≡ true
all-append' [] ys h k = k
all-append' (x ∷ xs) ys h k = ground (arith, all-append' xs ys)

adopt_id-own :
    (base : Row) (id : Bytes)
    → is_full_ticket_id id ≡ true
    → scope_of id ≡ base.scope
    → adopt_id base id ≡ record base { id = id; short_id = short_of id }
unfolding adopt_id
adopt_id-own base id full own = rw (full, (bytes_eq_iff (scope_of id) base.scope).1 own) refl

-- What a row says of a ticket's model.
pub record IsRowOf (m : Model) (body : Bytes) (row : Row) (edges : List Edge) : Type 0 where
  pub healthy : row.parse_error ≡ false
  pub same_id : row.id ≡ m.id
  pub same_status : row.status ≡ m.status
  pub same_order : row.order_key ≡ m.order
  pub same_tags : row.tags ≡ m.tags
  pub same_body : row.body ≡ body
  pub legal : all is_legal edges ≡ true
  pub whole : row.schema_error ≡ false → targets edges ≡ m.depends ++ m.related

index_from_model-IsRowOf :
    (base : Row) (m : Model) (custom : List Field)
    → base.parse_error ≡ false
    → is_full_ticket_id m.id ≡ true
    → scope_of m.id ≡ base.scope
    → IsRowOf m base.body
        (index_from_model base (with_custom m custom)).0
        (index_from_model base (with_custom m custom)).1
unfolding index_from_model edges_from
index_from_model-IsRowOf base m custom healthy full own =
    let filled : Row = record base {
      status = m.status;
      order_key = m.order;
      summary = m.summary;
      created = m.created;
      changed = m.changed;
      tags = m.tags;
      status_conflict = m.status_conflict;
      title = tk.Title.extract base.body;
    } in
    let named : Row = record filled { id = m.id; short_id = short_of m.id } in
    rw (adopt_id-own filled m.id full own) (record {
      healthy = healthy;
      same_id = refl;
      same_status = refl;
      same_order = refl;
      same_tags = refl;
      same_body = refl;
      legal =
          all-append' (edges_of named edge_depends m.depends)
            (edges_of named edge_related m.related) (legal-edges_of named edge_depends m.depends)
            (legal-edges_of named edge_related m.related);
      whole = λ ok.
          targets-append (edges_of named edge_depends m.depends)
            (edges_of named edge_related m.related)
          ∙ ap₂ ◌++◌ (targets-edges_of named edge_depends m.depends (ground arith))
              (targets-edges_of named edge_related m.related (ground arith));
    })

module _ (unmarshal : Bytes → Option (List Field)) (through : Value → Value)
    (ok : IsReread through) where
  -- A ticket that is written is indexed as written: for an interior of whole lines, none a fence and none a conflict
  -- marker, that decodes to what YAML makes of the items of a model of the file's scope, the row is healthy
  -- and has the model's id, status, order, tags and the file's body; every edge leads to a full id, and
  -- without a schema error the edges are those to the tickets that it depends on and then to its related
  -- ones. A string comes back from YAML as a string, and a list of strings as an `[]any` of them.
  pub parse_file-written :
      (path scope full_id : Bytes) (archived : Bool) (lines : List Bytes) (body : Bytes) (m : Model)
      → AreInterior lines
      → contains_conflict_marker (unlines lines) ≡ false
      → unmarshal (unlines lines) ≡ some (reread through (serialize_items m))
      → AreCustom m.custom
      → is_full_ticket_id m.id ≡ true
      → scope_of m.id ≡ scope
      → (row : Row) × (edges : List Edge) × (parse_file unmarshal path scope full_id archived
            (some (compose (unlines lines) body))
          ≡ some (row, edges))
        × IsRowOf m body row edges
  unfolding parse_file healthy_model base_row
  parse_file-written path scope full_id archived lines body m inside clean decoded custom full own =
      let model = with_custom m (reread through m.custom) in
      let base = base_row path scope full_id archived body in
      let healthy : healthy_model unmarshal (split (compose (unlines lines) body)) ≡ some model =
        rw
          (
            split-compose lines body inside,
            clean,
            decoded,
            decode-serialize_items through ok m custom,
            healthy_model,
          )
          refl in
      (
        (index_from_model base model).0,
        (index_from_model base model).1,
        rw (healthy, parse_file) (rw (split-compose lines body inside) refl),
        index_from_model-IsRowOf base m (reread through m.custom) refl full own,
      )
