-- ===== src/Meta.antt =====
-- internal/writeengine/meta.go: what `tk meta` reads and rewrites of a ticket's frontmatter. The index, the
-- registry, the reconciling of another scope and the reading of the ticket's file are parameters; the
-- locks, the commit and the notice of new tags are not modelled. The model that a call returns
-- is the one that it writes.
pub mod Changes
mod Keys
pub mod Write
mod Frame
mod Runs
mod Lists
mod Values
mod Examples
use tk.Prelude.{
  ℕ, ◌+◌, ◌*◌, ◌-◌, ◌^◌, Bool, true, false, ◌&&◌, ◌||◌, not, Option, none, some, List, [], ◌∷◌,
  ◌++◌, Bytes, codes, bytes_eq, bytes_lt, contains, lookup, length, map, all, any, sort_by, ltb,
  leb, ◌==◌, if◌then◌else◌,
}
use tk.Id.{Form, form_full, form_short, parse_arg, scope_of_full_id, has_byte}
use tk.Depgate.{Ticket}
use tk.Frontmatter.{
  Value, Scalar, scalar, strings, values, null, text, printed, Field, Model, remove_custom,
  string_list, sprint, join, canonical_meta_key, key_id, key_status, key_changed, key_order,
  key_depends, key_related, key_tags, key_created, key_links, key_summary, key_status_conflict,
}
use tk.Schema.{
  FieldType, field_string, field_int, field_bool, field_strings, field_other, FieldDecl, Schema,
  missing_required,
}
use tk.Session.{SessionError}
use tk.Placement.{Lookup, query_of, Answer, answer, failure, Failure, resolve_write_row}

pub data MetaOp : Type 0 where
  meta_set meta_add meta_remove : MetaOp

pub data MetaKeyClass : Type 0 where
  unknown immutable single multi : MetaKeyClass

-- The built-in keys, as the cases of the switches on a key.
pub data Builtin : Type 0 where
  id_key status_key changed_key order_key depends_key related_key : Builtin
  tags_key created_key links_key summary_key status_conflict_key : Builtin

abbrev pub wire : Builtin → Bytes
wire id_key = key_id
wire status_key = key_status
wire changed_key = key_changed
wire order_key = key_order
wire depends_key = key_depends
wire related_key = key_related
wire tags_key = key_tags
wire created_key = key_created
wire links_key = key_links
wire summary_key = key_summary
wire status_conflict_key = key_status_conflict

-- `builtinMetaKeyOrder`
abbrev pub builtin_order : List Builtin
builtin_order =
    id_key ∷ status_key ∷ changed_key ∷ order_key ∷ depends_key ∷ related_key ∷ tags_key
    ∷ created_key ∷ links_key ∷ summary_key ∷ status_conflict_key ∷ []

unfoldable pub find_builtin : Bytes → List Builtin → Option Builtin
find_builtin key [] = none
find_builtin key (b ∷ bs) = if bytes_eq key (wire b) then some b else find_builtin key bs

-- The case of a switch that a key takes; `none` is past the built-in ones.
unfoldable pub builtin_of : Bytes → Option Builtin
unfolding find_builtin
builtin_of key = find_builtin key builtin_order

abbrev pub builtin_class : Builtin → MetaKeyClass
builtin_class depends_key = multi
builtin_class related_key = multi
builtin_class tags_key = multi
builtin_class links_key = multi
builtin_class summary_key = single
builtin_class _ = immutable

abbrev pub plain_field : FieldType → FieldDecl
plain_field t = record { type = t; required = false; enum = none }

abbrev pub type_class : FieldType → Option MetaKeyClass
type_class field_string = some single
type_class field_int = some single
type_class field_bool = some single
type_class field_strings = some multi
type_class (field_other t) = none

abbrev pub builtin_field : MetaKeyClass → FieldDecl
builtin_field single = plain_field field_string
builtin_field multi = plain_field field_strings
builtin_field _ = plain_field (field_other [])

-- `ClassifyMetaKey`; `none` is its error.
unfoldable pub classify_meta_key : Bytes → Schema → Option (MetaKeyClass × FieldDecl)
unfolding builtin_of lookup
classify_meta_key key schema = elim (builtin_of key) [
  | some b ↦ some (builtin_class b, builtin_field (builtin_class b))
  | none ↦ elim (lookup key schema.fields) [
    | none ↦ some (unknown, builtin_field unknown)
    | some f ↦ elim (type_class f.type) [ none ↦ none | some c ↦ some (c, f) ]
  ]
]

unfoldable pub known_meta_keys : Schema → List Bytes
unfolding sort_by bytes_lt
known_meta_keys schema =
    map wire builtin_order ++ sort_by bytes_lt (map (λ (f : Bytes × FieldDecl). f.0) schema.fields)

-- `customValue`
unfoldable pub custom_value : List Field → Bytes → Option Value
custom_value [] key = none
custom_value (f ∷ fs) key = if bytes_eq f.key key then some f.value else custom_value fs key

-- `setCustom`, on the custom items.
unfoldable pub set_custom : List Field → Bytes → Value → List Field
set_custom [] key v = record { key = key; value = v } ∷ []
set_custom (f ∷ fs) key v =
    if bytes_eq f.key key then record f { value = v } ∷ fs else f ∷ set_custom fs key v

abbrev pub format_scalar : Value → Bytes
format_scalar (scalar null) = []
format_scalar (scalar (text s)) = s
format_scalar v = sprint v

unfoldable pub join_lines : List Bytes → Bytes
unfolding join
join_lines [] = []
join_lines (s ∷ l) = join (b'\n' ∷ []) (s ∷ l) ++ b'\n' ∷ []

abbrev pub is_strings : FieldType → Bool
is_strings field_strings = true
is_strings _ = false

abbrev pub is_multi : MetaKeyClass → Bool
is_multi multi = true
is_multi _ = false

unfoldable pub get_builtin : Model → Builtin → Bytes
unfolding join_lines
get_builtin m id_key = m.id
get_builtin m status_key = m.status
get_builtin m changed_key = m.changed
get_builtin m order_key = m.order
get_builtin m depends_key = join_lines m.depends
get_builtin m related_key = join_lines m.related
get_builtin m tags_key = join_lines m.tags
get_builtin m created_key = m.created
get_builtin m links_key = join_lines m.links
get_builtin m summary_key = m.summary
get_builtin m status_conflict_key = join_lines m.status_conflict

unfoldable pub get_custom : Option Value → Bool → Option Bytes
unfolding join_lines string_list sprint
get_custom none as_list = some []
get_custom (some v) as_list =
    if as_list
    then elim (string_list v) [ none ↦ none | some l ↦ some (join_lines l) ]
    else some (format_scalar v)

unfoldable pub meta_get_value : Model → Bytes → MetaKeyClass → FieldDecl → Option Bytes
unfolding builtin_of get_builtin get_custom custom_value
meta_get_value m key class field = elim (builtin_of key) [
  | some b ↦ some (get_builtin m b)
  | none ↦ get_custom (custom_value m.custom key) (is_multi class || is_strings field.type)
]

-- The refusals of `Meta`, by their Go types; `unreadable` is a failed read of the file.
pub data Refusal : Type 0 where
  usage unknown_key immutable_key unsupported_type : Refusal
  depends_self depends_dangling depends_unresolvable unreadable : Refusal
  of_row : Failure → Refusal
  of_session : SessionError → Refusal

pub data Outcome (A : Type 0) : Type 0 where
  done : A → Outcome A
  refused : Refusal → Outcome A

unfoldable pub normalise_edge_value : Bytes → Bytes → Option Bytes
unfolding parse_arg
normalise_edge_value scope value =
    let (form, ok) = parse_arg value in
    if not ok
    then none
    else elim form [ form_full ↦ some value | form_short ↦ some (scope ++ b'-' ∷ value) ]

-- The class that an operation needs.
abbrev pub op_fits : MetaOp → MetaKeyClass → Bool
op_fits meta_set single = true
op_fits meta_add multi = true
op_fits meta_remove multi = true
op_fits op class = false

-- The guards on the class, in their order.
abbrev pub class_refusal : MetaOp → MetaKeyClass → Option Refusal
class_refusal op unknown = some unknown_key
class_refusal op immutable = some immutable_key
class_refusal op class = if op_fits op class then none else some usage

abbrev pub is_add : MetaOp → Bool
is_add meta_add = true
is_add _ = false
