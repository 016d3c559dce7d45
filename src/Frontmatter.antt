-- ===== src/Frontmatter.antt =====
-- internal/frontmatter/frontmatter.go: the fence of a ticket file and its decoded keys.
-- A decoded YAML value is kept by its printed form; YAML decoding itself is not modelled.
mod Files
pub mod Fence
pub mod Items
mod Examples
unfoldable pub use Files.*
use tk.Prelude.{
  ℕ, ◌-◌, Bool, true, false, ◌&&◌, ◌||◌, not, Option, none, some, List, [], ◌∷◌, ◌++◌, Bytes, codes,
  bytes_eq, contains, lookup, length, map, ◌==◌, if◌then◌else◌,
}

abbrev pub key_id : Bytes
key_id = codes "id"

abbrev pub key_status : Bytes
key_status = codes "status"

abbrev pub key_changed : Bytes
key_changed = codes "changed"

abbrev pub key_order : Bytes
key_order = codes "order"

abbrev pub key_depends : Bytes
key_depends = codes "depends"

abbrev pub key_related : Bytes
key_related = codes "related"

abbrev pub key_tags : Bytes
key_tags = codes "tags"

abbrev pub key_created : Bytes
key_created = codes "created"

abbrev pub key_links : Bytes
key_links = codes "links"

abbrev pub key_summary : Bytes
key_summary = codes "summary"

abbrev pub key_status_conflict : Bytes
key_status_conflict = codes "status_conflict"

unfoldable pub builtin_keys : List Bytes
builtin_keys =
    key_id ∷ key_status ∷ key_changed ∷ key_order ∷ key_depends ∷ key_related ∷ key_tags
    ∷ key_created ∷ key_links ∷ key_summary ∷ key_status_conflict ∷ []

unfoldable pub is_builtin_key : Bytes → Bool
unfolding builtin_keys
is_builtin_key name = contains builtin_keys name

unfoldable pub meta_key_aliases : List (Bytes × Bytes)
meta_key_aliases = (codes "tag", key_tags) ∷ (codes "link", key_links) ∷ []

unfoldable pub canonical_meta_key : Bytes → Bytes
unfolding meta_key_aliases
canonical_meta_key key = elim (lookup key meta_key_aliases) [ none ↦ key | some wire ↦ wire ]

-- A decoded scalar: null, a string, or any other value by its printed form.
pub data Scalar : Type 0 where
  null : Scalar
  text : Bytes → Scalar
  printed : Bytes → Scalar

-- A decoded value: a scalar, a `[]string`, or an `[]any`.
pub data Value : Type 0 where
  scalar : Scalar → Value
  strings : List Bytes → Value
  values : List Scalar → Value

pub record Field : Type 0 where
  pub key : Bytes
  pub value : Value

-- An absent optional key is an empty string or list.
pub record Model : Type 0 where
  pub id : Bytes
  pub status : Bytes
  pub changed : Bytes
  pub order : Bytes
  pub depends : List Bytes
  pub related : List Bytes
  pub tags : List Bytes
  pub created : Bytes
  pub links : List Bytes
  pub summary : Bytes
  pub status_conflict : List Bytes
  pub custom : List Field

abbrev pub no_model : Model
no_model = record {
  id = [];
  status = [];
  changed = [];
  order = [];
  depends = [];
  related = [];
  tags = [];
  created = [];
  links = [];
  summary = [];
  status_conflict = [];
  custom = [];
}

-- The loop of `RemoveCustom`.
unfoldable pub without_key : Bytes → List Field → List Field
without_key key [] = []
without_key key (f ∷ fs) = if bytes_eq f.key key then without_key key fs else f ∷ without_key key fs

unfoldable pub has_custom : Bytes → List Field → Bool
has_custom key [] = false
has_custom key (f ∷ fs) = bytes_eq f.key key || has_custom key fs

unfoldable pub remove_custom : Model → Bytes → Model × Bool
unfolding without_key has_custom
remove_custom m key =
    if has_custom key m.custom
    then (record m { custom = without_key key m.custom }, true)
    else (m, false)

-- `asScalarString`
unfoldable pub as_scalar_string : Scalar → Bytes
as_scalar_string null = []
as_scalar_string (text s) = s
as_scalar_string (printed s) = s

unfoldable pub scalar_strings : List Scalar → List Bytes
unfolding as_scalar_string
scalar_strings [] = []
scalar_strings (s ∷ ss) = as_scalar_string s ∷ scalar_strings ss

-- `StringList`; `none` is its error.
unfoldable pub string_list : Value → Option (List Bytes)
unfolding scalar_strings
string_list (scalar null) = some []
string_list (scalar (text s)) = none
string_list (scalar (printed s)) = none
string_list (strings l) = some l
string_list (values l) = some (scalar_strings l)

-- `fmt.Sprint` of a decoded value.
unfoldable pub sprint_scalar : Scalar → Bytes
sprint_scalar null = codes "<nil>"
sprint_scalar (text s) = s
sprint_scalar (printed s) = s

unfoldable pub join : Bytes → List Bytes → Bytes
join sep [] = []
join sep (s ∷ []) = s
join sep (s ∷ t ∷ ts) = s ++ (sep ++ join sep (t ∷ ts))

abbrev pub bracketed : List Bytes → Bytes
bracketed l = codes "[" ++ (join (codes " ") l ++ codes "]")

unfoldable pub sprint : Value → Bytes
unfolding sprint_scalar join
sprint (scalar s) = sprint_scalar s
sprint (strings l) = bracketed l
sprint (values l) = bracketed (map sprint_scalar l)

-- `asScalarString` of any decoded value.
unfoldable pub as_scalar : Value → Bytes
unfolding as_scalar_string sprint
as_scalar (scalar s) = as_scalar_string s
as_scalar (strings l) = sprint (strings l)
as_scalar (values l) = sprint (values l)

-- `assignList`
abbrev pub with_list : Value → (List Bytes → Model) → Option Model
with_list v set = elim (string_list v) [ none ↦ none | some l ↦ some (set l) ]

-- `assignBuiltin`; `none` is its error.
unfoldable pub assign_builtin : Model → Bytes → Value → Option Model
unfolding as_scalar string_list
assign_builtin m key v =
    if bytes_eq key key_id
    then some (record m { id = as_scalar v })
    else if bytes_eq key key_status
    then some (record m { status = as_scalar v })
    else if bytes_eq key key_changed
    then some (record m { changed = as_scalar v })
    else if bytes_eq key key_order
    then some (record m { order = as_scalar v })
    else if bytes_eq key key_created
    then some (record m { created = as_scalar v })
    else if bytes_eq key key_summary
    then some (record m { summary = as_scalar v })
    else if bytes_eq key key_depends
    then with_list v (λ l. record m { depends = l })
    else if bytes_eq key key_related
    then with_list v (λ l. record m { related = l })
    else if bytes_eq key key_tags
    then with_list v (λ l. record m { tags = l })
    else if bytes_eq key key_links
    then with_list v (λ l. record m { links = l })
    else if bytes_eq key key_status_conflict
    then with_list v (λ l. record m { status_conflict = l })
    else some m

-- One round of the loop in `Parse`, over a decoded item.
unfoldable pub decode_item : Model → Field → Option Model
unfolding is_builtin_key assign_builtin
decode_item m f =
    if not (is_builtin_key f.key)
    then some (record m { custom = m.custom ++ f ∷ [] })
    else assign_builtin m f.key f.value

unfoldable pub decode : Model → List Field → Option Model
unfolding decode_item
decode m [] = some m
decode m (f ∷ fs) = elim (decode_item m f) [ none ↦ none | some m' ↦ decode m' fs ]

abbrev pub item : Bytes → Value → Field
item k v = record { key = k; value = v }

-- `appendList`, as the items that it adds.
unfoldable pub list_item : Bytes → List Bytes → List Field
list_item key [] = []
list_item key (s ∷ l) = item key (strings (s ∷ l)) ∷ []

abbrev pub text_item : Bytes → Bytes → Field
text_item key s = item key (scalar (text s))

unfoldable pub optional_item : Bytes → Bytes → List Field
optional_item key [] = []
optional_item key (c ∷ cs) = text_item key (c ∷ cs) ∷ []

-- The items that `Serialize` hands to the YAML encoder.
unfoldable pub serialize_items : Model → List Field
unfolding list_item optional_item
serialize_items m =
    text_item key_id m.id
    ∷ text_item key_status m.status
    ∷ (optional_item key_changed m.changed
        ++ (text_item key_order m.order
            ∷ (list_item key_depends m.depends
                ++ (list_item key_related m.related
                    ++ (list_item key_tags m.tags
                        ++ (text_item key_created m.created
                            ∷ (list_item key_links m.links
                                ++ (optional_item key_summary m.summary
                                    ++ (list_item key_status_conflict m.status_conflict
                                        ++ m.custom)))))))))
