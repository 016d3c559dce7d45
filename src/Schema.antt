-- ===== src/Schema.antt =====
-- internal/scopeconfig/scopeconfig.go: the schema of a scope, and the rules of its declarations.
-- Reading tk.cue is not modelled: the input is what CUE decodes. A nil slice is `none`.
mod Declared
mod Populated
mod Missing
mod Examples
use tk.Prelude.{
  ℕ, Bool, true, false, ◌&&◌, ◌||◌, not, Option, none, some, List, [], ◌∷◌, Bytes, codes, bytes_eq,
  bytes_lt, contains, lookup, has_key, length, sort_by, all, leb, ◌==◌, if◌then◌else◌,
}
use tk.Status.{
  Category, category_active, category_backlog, category_done, category_other, Customs, is_builtin,
  valid_category, is_known, is_terminal,
}
use tk.Frontmatter.{
  Value, scalar, strings, values, null, text, printed, Field, Model, is_builtin_key,
  meta_key_aliases, string_list, sprint,
}

-- `field_other` is any other string.
pub data FieldType : Type 0 where
  field_string field_int field_bool field_strings : FieldType
  field_other : Bytes → FieldType

pub record FieldDecl : Type 0 where
  pub type : FieldType
  pub required : Bool
  pub enum : Option (List Bytes)

-- A `map[string]Field`.
abbrev pub Fields : Type 0
Fields = List (Bytes × FieldDecl)

pub record Schema : Type 0 where
  pub name : Bytes
  pub auto_commit : Bool
  pub statuses : Customs
  pub fields : Fields

unfoldable pub status_known : Schema → Bytes → Bool
status_known s name = is_known name s.statuses

unfoldable pub status_terminal : Schema → Bytes → Bool
status_terminal s name = is_terminal name s.statuses

unfoldable pub field : Schema → Bytes → Option FieldDecl
field s name = lookup name s.fields

-- The expressions `^[a-z][a-z0-9-]{0,31}$` and `^[a-z][a-z0-9_]{0,31}$`, which differ in `joiner`.
abbrev pub is_lower : ℕ → Bool
is_lower c = leb b'a' c && leb c b'z'

abbrev pub is_digit : ℕ → Bool
is_digit c = leb b'0' c && leb c b'9'

unfoldable pub name_matches : ℕ → Bytes → Bool
name_matches joiner [] = false
name_matches joiner (c ∷ cs) =
    is_lower c && leb (length cs) 31 && all (λ d. is_lower d || is_digit d || d == joiner) cs

-- `status.Category(st.Category)`
unfoldable pub to_category : Bytes → Category
to_category s =
    if bytes_eq s (codes "active")
    then category_active
    else if bytes_eq s (codes "backlog")
    then category_backlog
    else if bytes_eq s (codes "done")
    then category_done
    else category_other s

-- `validateStatuses`, over a map of names and category strings; `none` is its error.
unfoldable pub validate_statuses : List (Bytes × Bytes) → Option Customs
unfolding name_matches to_category
validate_statuses [] = some []
validate_statuses ((name, category) ∷ raw) =
    let rest = validate_statuses raw in
    if not (name_matches b'-' name)
    then none
    else if is_builtin name
    then none
    else if not (valid_category (to_category category))
    then none
    else elim rest [ none ↦ none | some m ↦ some ((name, to_category category) ∷ m) ]

pub record RawField : Type 0 where
  pub type : FieldType
  pub required : Option Bool
  pub enum : Option (List Bytes)

abbrev pub is_closed_type : FieldType → Bool
is_closed_type (field_other s) = false
is_closed_type t = true

abbrev pub allows_enum : FieldType → Bool
allows_enum field_string = true
allows_enum field_strings = true
allows_enum t = false

-- The loop over an enum: whether a value was seen before.
unfoldable pub has_duplicate : List Bytes → List Bytes → Bool
unfolding contains
has_duplicate seen [] = false
has_duplicate seen (v ∷ vs) = if contains seen v then true else has_duplicate (v ∷ seen) vs

abbrev pub given : Option (List Bytes) → List Bytes
given none = []
given (some l) = l

abbrev pub or_false : Option Bool → Bool
or_false none = false
or_false (some b) = b

-- `fieldFromRaw`; `none` is its error.
unfoldable pub field_from_raw : Bytes → RawField → Bool → Option FieldDecl
unfolding name_matches has_duplicate meta_key_aliases
field_from_raw name f has_enum =
    if not (name_matches b'_' name)
    then none
    else if is_builtin_key name
    then none
    else if has_key name meta_key_aliases
    then none
    else if not (is_closed_type f.type)
    then none
    else if has_enum && not (allows_enum f.type)
    then none
    else if has_enum && has_duplicate [] (given f.enum)
    then none
    else some (record {
      type = f.type;
      required = or_false f.required;
      enum = if has_enum then f.enum else none;
    })

abbrev pub is_given : Option (List Bytes) → Bool
is_given none = false
is_given (some l) = true

-- `ValidateFieldDecl`; `false` is its error.
unfoldable pub validate_field_decl : Bytes → FieldDecl → Bool
unfolding field_from_raw
validate_field_decl name f =
    let raw : RawField = record {
      type = f.type;
      required = if f.required then some true else none;
      enum = if is_given f.enum then f.enum else none;
    } in
    elim (field_from_raw name raw (is_given f.enum)) [ none ↦ false | some d ↦ true ]

unfoldable pub string_value_non_empty : Value → Bool
unfolding sprint
string_value_non_empty (scalar null) = false
string_value_non_empty (scalar (text s)) = not (bytes_eq s [])
string_value_non_empty v = not (bytes_eq (sprint v) []) && not (bytes_eq (sprint v) (codes "<nil>"))

abbrev pub has_item : Option (List Bytes) → Bool
has_item none = false
has_item (some []) = false
has_item (some (s ∷ l)) = true

-- `fieldPopulated`, of an optional value.
unfoldable pub field_populated : FieldType → Option Value → Bool
unfolding string_value_non_empty string_list
field_populated t none = false
field_populated field_string (some v) = string_value_non_empty v
field_populated field_strings (some v) = has_item (string_list v)
field_populated t (some v) = true

-- `byKey`: a later item of a key replaces an earlier one.
unfoldable pub by_key : Bytes → List Field → Option Value
by_key key [] = none
by_key key (f ∷ fs) = elim (by_key key fs) [
  | some v ↦ some v
  | none ↦ if bytes_eq f.key key then some f.value else none
]

-- The loop over the fields.
unfoldable pub missing : List Field → Fields → List Bytes
unfolding field_populated by_key
missing custom [] = []
missing custom ((name, f) ∷ fs) =
    if not f.required
    then missing custom fs
    else if not (field_populated f.type (by_key name custom))
    then name ∷ missing custom fs
    else missing custom fs

-- `MissingRequired`, of a schema and a model that are not nil.
unfoldable pub missing_required : Schema → Model → List Bytes
unfolding missing
missing_required s m = sort_by bytes_lt (missing m.custom s.fields)
