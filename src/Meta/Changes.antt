-- ===== src/Meta/Changes.antt =====
-- internal/writeengine/meta.go: the changes of a model, by the kind of its key. An int is kept in the form that it is
-- printed in.
use tk.Prelude.{
  ℕ, ◌+◌, ◌*◌, ◌-◌, ◌^◌, Bool, true, false, ◌&&◌, ◌||◌, not, Option, none, some, List, [], ◌∷◌,
  ◌++◌, Bytes, codes, bytes_eq, contains, all, ltb, leb, ◌==◌, if◌then◌else◌,
}
use tk.Frontmatter.{Value, scalar, strings, null, text, printed, Model, remove_custom, string_list}
use tk.Schema.{field_string, field_int, field_bool, field_strings, field_other, FieldDecl}
use tk.Meta.{
  MetaOp, Builtin, builtin_of, custom_value, set_custom, Outcome, meta_set, meta_add, meta_remove,
  depends_key, related_key, tags_key, links_key, summary_key, usage, done, refused,
}

-- `strconv.ParseInt(value, 10, 64)`, by the form that the number is printed in.
unfoldable pub number_of : ℕ → Bytes → ℕ
number_of n [] = n
number_of n (c ∷ cs) = number_of (n * 10 + (c - b'0')) cs

unfoldable pub strip_zeros : Bytes → Bytes
strip_zeros [] = codes "0"
strip_zeros (c ∷ cs) = if c == b'0' then strip_zeros cs else c ∷ cs

abbrev pub is_decimal : ℕ → Bool
is_decimal c = leb b'0' c && leb c b'9'

abbrev pub digits_only : Bytes → Bool
digits_only ds = not (bytes_eq ds []) && all is_decimal ds

unfoldable pub parse_signed : Bool → Bytes → Option Bytes
unfolding number_of strip_zeros
parse_signed negative ds =
    if not (digits_only ds) || ltb (if negative then 2 ^ 63 else 2 ^ 63 - 1) (number_of 0 ds)
    then none
    else if negative && not (number_of 0 ds == 0)
    then some (b'-' ∷ strip_zeros ds)
    else some (strip_zeros ds)

unfoldable pub parse_int : Bytes → Option Bytes
unfolding parse_signed
parse_int [] = none
parse_int (c ∷ cs) =
    if c == b'-'
    then parse_signed true cs
    else if c == b'+'
    then parse_signed false cs
    else parse_signed false (c ∷ cs)

abbrev pub outside : Option (List Bytes) → Bytes → Bool
outside none value = false
outside (some []) value = false
outside (some (v ∷ vs)) value = not (contains (v ∷ vs) value)

unfoldable pub parse_scalar_value : FieldDecl → Bytes → Outcome Value
unfolding parse_int
parse_scalar_value field value = elim field.type [
  | field_string ↦ if outside field.enum value then refused usage else done (scalar (text value))
  | field_int ↦ elim (parse_int value) [ none ↦ refused usage | some n ↦ done (scalar (printed n)) ]
  | field_bool ↦
      if bytes_eq value (codes "true") || bytes_eq value (codes "false")
      then done (scalar (printed value))
      else refused usage
  | field_strings ↦ refused usage
  | field_other t ↦ refused usage
]

abbrev pub is_summary : Option Builtin → Bool
is_summary (some summary_key) = true
is_summary _ = false

unfoldable pub apply_meta_set : Model → Bytes → Bytes → FieldDecl → Outcome Model
unfolding remove_custom set_custom parse_scalar_value builtin_of
apply_meta_set m key value field =
    if is_summary (builtin_of key)
    then done (record m { summary = value })
    else if bytes_eq value []
    then done (remove_custom m key).0
    else elim (parse_scalar_value field value) [
      | refused r ↦ refused r
      | done v ↦ done (record m { custom = set_custom m.custom key v })
    ]

-- The removal loop of `mutateStringList`.
unfoldable pub remove_first : Bytes → List Bytes → List Bytes
remove_first value [] = []
remove_first value (e ∷ l) = if bytes_eq e value then l else e ∷ remove_first value l

unfoldable pub mutate_string_list : List Bytes → MetaOp → Bytes → FieldDecl → Outcome (List Bytes)
unfolding remove_first
mutate_string_list list meta_add value field =
    if outside field.enum value
    then refused usage
    else if contains list value
    then done list
    else done (list ++ value ∷ [])
mutate_string_list list meta_remove value field = done (remove_first value list)
mutate_string_list list meta_set value field = refused usage

-- The list that the switch of `applyMetaListOp` points at, and the model with it replaced.
abbrev pub built_in_list : Model → Option Builtin → Option (List Bytes)
built_in_list m (some depends_key) = some m.depends
built_in_list m (some related_key) = some m.related
built_in_list m (some tags_key) = some m.tags
built_in_list m (some links_key) = some m.links
built_in_list m _ = none

abbrev pub put_list : Model → Option Builtin → List Bytes → Model
put_list m (some depends_key) l = record m { depends = l }
put_list m (some related_key) l = record m { related = l }
put_list m (some tags_key) l = record m { tags = l }
put_list m (some links_key) l = record m { links = l }
put_list m _ l = m

abbrev pub or_null : Option Value → Value
or_null none = scalar null
or_null (some v) = v

unfoldable pub put_custom_list : Model → Bytes → List Bytes → Model
unfolding remove_custom set_custom
put_custom_list m key [] = (remove_custom m key).0
put_custom_list m key (s ∷ l) = record m { custom = set_custom m.custom key (strings (s ∷ l)) }

unfoldable pub apply_meta_list_op : Model → MetaOp → Bytes → Bytes → FieldDecl → Outcome Model
unfolding mutate_string_list put_custom_list custom_value string_list builtin_of
apply_meta_list_op m op key value field = elim (built_in_list m (builtin_of key)) [
  | some list ↦ elim (mutate_string_list list op value field) [
    | refused r ↦ refused r
    | done next ↦ done (put_list m (builtin_of key) next)
  ]
  | none ↦ elim (string_list (or_null (custom_value m.custom key))) [
    | none ↦ refused usage
    | some existing ↦ elim (mutate_string_list existing op value field) [
      | refused r ↦ refused r
      | done next ↦ done (put_custom_list m key next)
    ]
  ]
]

unfoldable pub apply_meta_mutation : Model → MetaOp → Bytes → Bytes → FieldDecl → Outcome Model
unfolding apply_meta_set apply_meta_list_op
apply_meta_mutation m meta_set key value field = apply_meta_set m key value field
apply_meta_mutation m op key value field = apply_meta_list_op m op key value field
