-- ===== src/Scopefile.antt =====
-- internal/scopefile/scopefile.go, occupy.go: which file names and paths of a scope's directory are its own.
-- Paths are absolute and clean.
mod Names
mod Examples
use tk.Prelude.{
  ℕ, zero, suc, ◌+◌, Bool, true, false, ◌&&◌, ◌||◌, not, Option, none, some, List, [], ◌∷◌, ◌++◌,
  Bytes, codes, bytes_eq, bytes_lt, contains, lookup, length, map, drop, sort_by, ◌==◌,
  if◌then◌else◌,
}
use tk.Id.{cut_hyphen, has_prefix, trim_prefix, is_short_id, is_full_ticket_id, scope_of_full_id}
use tk.Slug.{valid}
use tk.Resolve.{ends_in_slash}

abbrev pub note_dir : Bytes
note_dir = codes "notes"

abbrev pub note_default_slug : Bytes
note_default_slug = codes "default"

abbrev pub design_dir : Bytes
design_dir = codes "design"

abbrev pub archive_dir : Bytes
archive_dir = codes "archive"

abbrev pub md : Bytes
md = codes ".md"

-- `filepath.Join` of a clean path and a name.
unfoldable pub join_path : Bytes → Bytes → Bytes
unfolding ends_in_slash
join_path root name = if ends_in_slash root then root ++ name else root ++ b'/' ∷ name

abbrev pub put_first : ℕ → Option Bytes → Option Bytes
put_first c none = none
put_first c (some s) = some (c ∷ s)

-- `strings.CutSuffix`
unfoldable pub cut_suffix : Bytes → Bytes → Option Bytes
cut_suffix [] suffix = if bytes_eq [] suffix then some [] else none
cut_suffix (c ∷ cs) suffix =
    if bytes_eq (c ∷ cs) suffix then some [] else put_first c (cut_suffix cs suffix)

-- The path from `dir`; `none` when it is `dir`, leaves it, or starts with "..".
unfoldable pub rel_under : Bytes → Bytes → Option Bytes
unfolding has_prefix join_path
rel_under path dir =
    let rel = drop (length (join_path dir [])) path in
    if not (has_prefix path (join_path dir [])) || bytes_eq rel [] || has_prefix rel (codes "..")
    then none
    else some rel

-- The text before and after the last '/'.
unfoldable pub last_slash : Bytes → Option (Bytes × Bytes)
last_slash [] = none
last_slash (c ∷ cs) = elim (last_slash cs) [
  | some (d, b) ↦ some (c ∷ d, b)
  | none ↦ if c == b'/' then some ([], cs) else none
]

-- `filepath.Dir` and `filepath.Base` of a path from the scope's directory.
unfoldable pub dir_and_base : Bytes → Bytes × Bytes
unfolding last_slash
dir_and_base rel = elim (last_slash rel) [ none ↦ (codes ".", rel) | some (d, b) ↦ (d, b) ]

unfoldable pub is_reserved_note_name : Bytes → Bool
is_reserved_note_name name =
    contains
      (codes "list"
        ∷ codes "ls"
        ∷ codes "add"
        ∷ codes "set"
        ∷ codes "edit"
        ∷ codes "remove"
        ∷ codes "rm"
        ∷ codes "help"
        ∷ codes "use"
        ∷ [])
      name

unfoldable pub is_addressable_note_slug : Bytes → Bool
unfolding is_reserved_note_name
is_addressable_note_slug name = valid name && not (is_reserved_note_name name)

unfoldable pub note_file : Bytes → Bytes → Bytes
unfolding join_path
note_file dir name = join_path (join_path dir note_dir) (name ++ md)

abbrev pub addressable : Option Bytes → Option Bytes
addressable none = none
addressable (some stem) = if is_addressable_note_slug stem then some stem else none

unfoldable pub note_slug : Bytes → Bytes → Option Bytes
unfolding rel_under dir_and_base cut_suffix is_addressable_note_slug
note_slug path dir = elim (rel_under path dir) [
  | none ↦ none
  | some rel ↦
      if not (bytes_eq (dir_and_base rel).0 note_dir)
      then none
      else addressable (cut_suffix (dir_and_base rel).1 md)
]

-- `strings.SplitN(stem, "-", 3)`
unfoldable pub split_3 : Bytes → List Bytes
unfolding cut_hyphen
split_3 stem = elim (cut_hyphen stem) [
  | none ↦ stem ∷ []
  | some (a, rest) ↦ elim (cut_hyphen rest) [
    | none ↦ a ∷ rest ∷ []
    | some (b, tail) ↦ a ∷ b ∷ tail ∷ []
  ]
]

abbrev pub id_of_parts : List Bytes → Option Bytes
id_of_parts (a ∷ b ∷ []) =
    if not (is_full_ticket_id (a ++ b'-' ∷ b)) then none else some (a ++ b'-' ∷ b)
id_of_parts (a ∷ b ∷ tail ∷ []) =
    if not (is_full_ticket_id (a ++ b'-' ∷ b))
    then none
    else if not (valid tail)
    then none
    else some (a ++ b'-' ∷ b)
id_of_parts _ = none

unfoldable pub ticket_id_from_base : Bytes → Option Bytes
unfolding cut_suffix split_3
ticket_id_from_base base = elim (cut_suffix base md) [
  | none ↦ none
  | some stem ↦ id_of_parts (split_3 stem)
]

abbrev pub is_some : Option Bytes → Bool
is_some none = false
is_some (some s) = true

unfoldable pub looks_like_ticket : Bytes → Bool
unfolding ticket_id_from_base
looks_like_ticket base = is_some (ticket_id_from_base base)

unfoldable pub is_allowlisted : Bytes → Bytes → Bool
unfolding rel_under dir_and_base cut_suffix looks_like_ticket is_addressable_note_slug
is_allowlisted path dir = elim (rel_under path dir) [
  | none ↦ false
  | some rel ↦
      let parent = (dir_and_base rel).0 in
      let base = (dir_and_base rel).1 in
      if bytes_eq parent (codes ".")
      then bytes_eq base (codes "tk.cue")
        || bytes_eq base (codes ".gitignore")
        || looks_like_ticket base
      else if bytes_eq parent archive_dir
      then looks_like_ticket base
      else if bytes_eq parent note_dir
      then is_some (addressable (cut_suffix base md))
      else if bytes_eq parent design_dir
      then looks_like_ticket base
      else false
]

unfoldable pub design_full_id : Bytes → Bytes → Option Bytes
unfolding rel_under dir_and_base ticket_id_from_base
design_full_id path dir = elim (rel_under path dir) [
  | none ↦ none
  | some rel ↦
      if not (bytes_eq (dir_and_base rel).0 design_dir)
      then none
      else ticket_id_from_base (dir_and_base rel).1
]

-- The text before the first '-', or all of it.
abbrev pub before_hyphen : Bytes → Bytes
before_hyphen rest = elim (cut_hyphen rest) [ none ↦ rest | some (short, tail) ↦ short ]

unfoldable pub full_id_of_basename : Bytes → Bytes → Option Bytes
unfolding cut_suffix has_prefix trim_prefix cut_hyphen
full_id_of_basename base scope = elim (cut_suffix base md) [
  | none ↦ none
  | some stem ↦
      if not (has_prefix stem (scope ++ b'-' ∷ []))
      then none
      else if not (is_short_id (before_hyphen (trim_prefix stem (scope ++ b'-' ∷ []))))
      then none
      else some (scope ++ b'-' ∷ before_hyphen (trim_prefix stem (scope ++ b'-' ∷ [])))
]

unfoldable pub short_id_of_basename : Bytes → Bytes → Option Bytes
unfolding full_id_of_basename trim_prefix
short_id_of_basename base scope = elim (full_id_of_basename base scope) [
  | none ↦ none
  | some full ↦ some (trim_prefix full (scope ++ b'-' ∷ []))
]

unfoldable pub count_allowlisted : Bytes → List Bytes → ℕ
unfolding is_allowlisted
count_allowlisted dir [] = 0
count_allowlisted dir (p ∷ ps) =
    if is_allowlisted p dir then suc (count_allowlisted dir ps) else count_allowlisted dir ps

-- `CountAllowlistedDirty`, of the answer of git for a directory.
unfoldable pub count_allowlisted_dirty : Bytes → Bool → Option (List Bytes) → ℕ
unfolding count_allowlisted
count_allowlisted_dirty dir has_root dirty =
    if not has_root then 0 else elim dirty [ none ↦ 0 | some ps ↦ count_allowlisted dir ps ]
