-- ===== src/Reconcile.antt =====
-- internal/reconcile/parse.go: the rows and the edges that the index gets from a ticket's or a design's file. The
-- decoding of YAML is a parameter, and a file is its bytes, `none` where it cannot be read. The times and
-- sizes of files, which are copied, are left out, and so are the custom fields.
mod Rows
mod Examples
use tk.Prelude.{
  ℕ, zero, suc, Bool, true, false, ◌&&◌, ◌||◌, not, Option, none, some, List, [], ◌∷◌, ◌++◌, Bytes,
  codes, bytes_eq, length, any, if◌then◌else◌,
}
use tk.Id.{has_prefix, is_full_ticket_id, cut_hyphen}
use tk.Frontmatter.{
  Field, Value, Model, no_model, decode, split, Parted, Line, first_line, string_list,
}
use tk.Title.{extract}

abbrev pub conflict_markers : List Bytes
conflict_markers = codes "<<<<<<<" ∷ codes "=======" ∷ codes ">>>>>>>" ∷ []

-- On fuel; each round takes a line.
unfoldable pub conflict_from : ℕ → Bytes → Bool
unfolding first_line has_prefix
conflict_from zero interior = false
conflict_from (suc f) [] = false
conflict_from (suc f) (c ∷ cs) =
    let l = first_line (c ∷ cs) in
    let later = conflict_from f l.rest in
    if any (λ (marker : Bytes). has_prefix l.line marker) conflict_markers then true else later

unfoldable pub contains_conflict_marker : Bytes → Bool
unfolding conflict_from
contains_conflict_marker interior = conflict_from (length interior) interior

unfoldable pub short_of : Bytes → Bytes
unfolding is_full_ticket_id cut_hyphen
short_of full =
    if not (is_full_ticket_id full)
    then []
    else elim (cut_hyphen full) [ none ↦ full | some (scope, short) ↦ short ]

unfoldable pub scope_of : Bytes → Bytes
unfolding cut_hyphen
scope_of full = elim (cut_hyphen full) [ none ↦ [] | some (scope, short) ↦ scope ]

pub data EdgeKind : Type 0 where
  edge_depends edge_related edge_produces : EdgeKind

pub record Edge : Type 0 where
  pub from_path : Bytes
  pub from_id : Bytes
  pub from_scope : Bytes
  pub to_id : Bytes
  pub to_scope : Bytes
  pub kind : EdgeKind

-- The columns of a ticket's row and of a design's that a file settles.
pub record Row : Type 0 where
  pub path : Bytes
  pub scope : Bytes
  pub id : Bytes
  pub short_id : Bytes
  pub status : Bytes
  pub order_key : Bytes
  pub title : Bytes
  pub summary : Bytes
  pub created : Bytes
  pub changed : Bytes
  pub tags : List Bytes
  pub status_conflict : List Bytes
  pub archived : Bool
  pub parse_error : Bool
  pub schema_error : Bool
  pub body : Bytes

unfoldable pub base_row : Bytes → Bytes → Bytes → Bool → Bytes → Row
unfolding short_of
base_row path scope full archived body = record {
  path = path;
  scope = scope;
  id = full;
  short_id = short_of full;
  status = [];
  order_key = [];
  title = [];
  summary = [];
  created = [];
  changed = [];
  tags = [];
  status_conflict = [];
  archived = archived;
  parse_error = false;
  schema_error = false;
  body = body;
}

unfoldable pub quarantine : Row → Bytes → Row
quarantine base raw = record base { parse_error = true; status = []; body = raw }

abbrev pub edge_to : Row → EdgeKind → Bytes → Edge
edge_to base kind target = record {
  from_path = base.path;
  from_id = base.id;
  from_scope = base.scope;
  to_id = target;
  to_scope = scope_of target;
  kind = kind;
}

-- `add` of `edgesFrom`, by the edges it adds and whether it meets an entry that is no full id.
unfoldable pub edges_of : Row → EdgeKind → List Bytes → List Edge
unfolding is_full_ticket_id scope_of
edges_of base kind [] = []
edges_of base kind (target ∷ l) =
    if not (is_full_ticket_id target)
    then edges_of base kind l
    else edge_to base kind target ∷ edges_of base kind l

unfoldable pub edges_from : Row → Model → List Edge × Bool
unfolding edges_of is_full_ticket_id
edges_from base m = (
  edges_of base edge_depends m.depends ++ edges_of base edge_related m.related,
  any (λ (t : Bytes). not (is_full_ticket_id t)) m.depends
      || any (λ (t : Bytes). not (is_full_ticket_id t)) m.related,
)

-- The id of the fence is taken when it is of the file's scope.
unfoldable pub adopt_id : Row → Bytes → Row
unfolding is_full_ticket_id scope_of short_of
adopt_id base id =
    if is_full_ticket_id id && bytes_eq (scope_of id) base.scope
    then record base { id = id; short_id = short_of id }
    else base

unfoldable pub index_from_model : Row → Model → Row × List Edge
unfolding adopt_id edges_from extract
index_from_model base m =
    let filled = record base {
      status = m.status;
      order_key = m.order;
      summary = m.summary;
      created = m.created;
      changed = m.changed;
      tags = m.tags;
      status_conflict = m.status_conflict;
      title = extract base.body;
    } in
    let named = adopt_id filled m.id in
    let (edges, schema_error) = edges_from named m in
    (record named { schema_error = schema_error }, edges)

-- `producesEdges`
abbrev pub edges_of_value : Row → Option (List Bytes) → List Edge
edges_of_value base none = []
edges_of_value base (some ids) = edges_of base edge_produces ids

unfoldable pub produces_edges : Row → List Field → List Edge
unfolding edges_of string_list
produces_edges base [] = []
produces_edges base (f ∷ fs) =
    if not (bytes_eq f.key (codes "produces"))
    then produces_edges base fs
    else edges_of_value base (string_list f.value) ++ produces_edges base fs

module _ (unmarshal : Bytes → Option (List Field)) where
  -- The model of a fence that is present, has no conflict marker and parses.
  unfoldable pub healthy_model : Parted → Option Model
  unfolding contains_conflict_marker decode
  healthy_model p =
      if not p.present || contains_conflict_marker p.interior
      then none
      else elim (unmarshal p.interior) [ none ↦ none | some items ↦ decode no_model items ]

  unfoldable pub parse_file : Bytes → Bytes → Bytes → Bool → Option Bytes → Option (Row × List Edge)
  unfolding split healthy_model quarantine index_from_model base_row
  parse_file path scope full archived none = none
  parse_file path scope full archived (some data_) =
      let base = base_row path scope full archived (split data_).body in
      elim (healthy_model (split data_)) [
        | none ↦ some (quarantine base data_, [])
        | some m ↦ some (index_from_model base m)
      ]

  unfoldable pub parse_design : Bytes → Bytes → Bytes → Option Bytes → Option (Row × List Edge)
  unfolding split healthy_model quarantine adopt_id produces_edges base_row extract
  parse_design path scope full none = none
  parse_design path scope full (some data_) =
      let base = base_row path scope full false [] in
      elim (healthy_model (split data_)) [
        | none ↦ some (quarantine base data_, [])
        | some m ↦
            let filled = record base {
              status = m.status;
              summary = m.summary;
              created = m.created;
              changed = m.changed;
              body = (split data_).body;
              title = extract (split data_).body;
            } in
            some (adopt_id filled m.id, produces_edges (adopt_id filled m.id) m.custom)
      ]
