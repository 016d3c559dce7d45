-- ===== src/Occupy.antt =====
-- internal/scopefile/occupy.go, prefix.go and the scan of scopefile.go: what a scope's directory lists and the
-- short-ids that its files hold. The file system is a parameter, by what it answers for a path, and so
-- is the YAML decoding of a fence.
mod Holding
mod Occupied
mod Examples
use tk.Prelude.{
  Bool, true, false, ◌&&◌, ◌||◌, not, Option, none, some, List, [], ◌∷◌, ◌++◌, Bytes, bytes_eq,
  bytes_lt, map, sort_by, if◌then◌else◌,
}
use tk.Id.{trim_prefix, is_full_ticket_id, scope_of_full_id}
use tk.Frontmatter.{Field, Model, no_model, decode, split, Parted}
use tk.Scopefile.{
  join_path, archive_dir, design_dir, is_some, ticket_id_from_base, looks_like_ticket,
  is_allowlisted, short_id_of_basename,
}

-- What the file system answers: `os.Stat`, and an entry and the result of `os.ReadDir`.
pub data Stat : Type 0 where
  not_exist stat_failed : Stat
  is_directory is_file : Stat

pub record DirEntry : Type 0 where
  pub name : Bytes
  pub is_dir : Bool

pub data Listing : Type 0 where
  entries : List DirEntry → Listing
  unreadable : Listing

unfoldable pub optional_dir_miss : Stat → Bool
optional_dir_miss not_exist = true
optional_dir_miss stat_failed = false
optional_dir_miss is_directory = false
optional_dir_miss is_file = true

abbrev pub does_not_exist : Stat → Bool
does_not_exist not_exist = true
does_not_exist _ = false

-- The shape of a file in `occupyDir`: a ticket's name, and in design/ a well-formed one.
unfoldable pub is_holder : Bytes → Bool → DirEntry → Bool
unfolding looks_like_ticket short_id_of_basename
is_holder scope design e =
    not e.is_dir
    && (not design || looks_like_ticket e.name)
    && is_some (short_id_of_basename e.name scope)

-- The map from a short-id to a path.
abbrev pub Paths : Type 0
Paths = List (Bytes × Bytes)

unfoldable pub hold : Paths → Bytes → Bytes → Paths
hold [] short path = (short, path) ∷ []
hold ((k, prev) ∷ out) short path =
    if bytes_eq k short
    then (k, if bytes_lt path prev then path else prev) ∷ out
    else (k, prev) ∷ hold out short path

abbrev pub hold_name : Paths → Bytes → Option Bytes → Paths
hold_name out path none = out
hold_name out path (some short) = hold out short path

-- A `PrefixMismatch`: a path and its id.
abbrev pub mismatch_at : Bytes → Bytes → Bytes → Option Bytes → List (Bytes × Bytes)
mismatch_at scope root name none = []
mismatch_at scope root name (some full) =
    if bytes_eq (scope_of_full_id full) scope then [] else (join_path root name, full) ∷ []

unfoldable pub mismatches_of : Bytes → Bytes → List DirEntry → List (Bytes × Bytes)
unfolding join_path scope_of_full_id ticket_id_from_base
mismatches_of scope root [] = []
mismatches_of scope root (e ∷ es) =
    (if e.is_dir then [] else mismatch_at scope root e.name (ticket_id_from_base e.name))
    ++ mismatches_of scope root es

unfoldable pub tickets_of : Bytes → Bytes → List DirEntry → List Bytes
unfolding join_path is_allowlisted looks_like_ticket
tickets_of scope_dir root [] = []
tickets_of scope_dir root (e ∷ es) =
    if e.is_dir
      || not (is_allowlisted (join_path root e.name) scope_dir)
      || not (looks_like_ticket e.name)
    then tickets_of scope_dir root es
    else join_path root e.name ∷ tickets_of scope_dir root es

module _ (unmarshal : Bytes → Option (List Field)) (stat : Bytes → Stat)
    (read_dir : Bytes → Listing) (read_file : Bytes → Option Bytes) where
  -- `frontmatter.Split` and `frontmatter.Parse`; `none` where the fence is absent or does not parse.
  unfoldable pub model_of : Bytes → Option Model
  unfolding decode split
  model_of data_ =
      if not (split data_).present then none else elim (unmarshal (split data_).interior) [
        | none ↦ none
        | some items ↦ decode no_model items
      ]

  abbrev pub hold_fence : Paths → Bytes → Bytes → Option Model → Paths
  hold_fence out scope path none = out
  hold_fence out scope path (some m) =
      if is_full_ticket_id m.id && bytes_eq (scope_of_full_id m.id) scope
      then hold out (trim_prefix m.id (scope ++ b'-' ∷ [])) path
      else out

  unfoldable pub occupy_file : Paths → Bytes → Bytes → Bytes → Option Paths
  unfolding hold trim_prefix scope_of_full_id is_full_ticket_id short_id_of_basename model_of
  occupy_file out scope path base =
      let held = hold_name out path (short_id_of_basename base scope) in
      elim (read_file path) [
        | none ↦ none
        | some data_ ↦ some (hold_fence held scope path (model_of data_))
      ]

  unfoldable pub occupy_entries : Paths → Bytes → Bytes → Bool → List DirEntry → Option Paths
  unfolding occupy_file is_holder join_path
  occupy_entries out scope root design [] = some out
  occupy_entries out scope root design (e ∷ es) =
      if not (is_holder scope design e)
      then occupy_entries out scope root design es
      else elim (occupy_file out scope (join_path root e.name) e.name) [
        | none ↦ none
        | some out' ↦ occupy_entries out' scope root design es
      ]

  abbrev pub occupy_listing : Paths → Bytes → Bytes → Bool → Bool → Listing → Option Paths
  occupy_listing out scope root design optional (entries es) =
      occupy_entries out scope root design es
  occupy_listing out scope root design optional unreadable =
      if does_not_exist (stat root) || optional && optional_dir_miss (stat root)
      then some out
      else none

  unfoldable pub occupy_dir : Paths → Bytes → Bytes → Bool → Bool → Option Paths
  unfolding occupy_entries optional_dir_miss
  occupy_dir out scope root design optional =
      occupy_listing out scope root design optional (read_dir root)

  unfoldable pub occupied_short_paths : Bytes → Bytes → Option Paths
  unfolding occupy_dir join_path
  occupied_short_paths dir scope = elim (occupy_dir [] scope dir false false) [
    | none ↦ none
    | some a ↦ elim (occupy_dir a scope (join_path dir archive_dir) false true) [
      | none ↦ none
      | some b ↦ occupy_dir b scope (join_path dir design_dir) true true
    ]
  ]

  unfoldable pub occupied_short_ids : Bytes → Bytes → Option (List Bytes)
  unfolding occupied_short_paths
  occupied_short_ids dir scope = elim (occupied_short_paths dir scope) [
    | none ↦ none
    | some paths ↦ some (map (λ (p : Bytes × Bytes). p.0) paths)
  ]

  abbrev pub listed : Bytes → Bytes → Bool → Listing → Option (List Bytes)
  listed dir root optional (entries es) = some (tickets_of dir root es)
  listed dir root optional unreadable =
      if optional && optional_dir_miss (stat root) then some [] else none

  -- `ListTickets` with `collectTickets`.
  unfoldable pub list_tickets : Bytes → Option (List Bytes)
  unfolding tickets_of join_path optional_dir_miss sort_by bytes_lt
  list_tickets dir = elim (listed dir dir false (read_dir dir)) [
    | none ↦ none
    | some at_root ↦
        elim (listed dir (join_path dir archive_dir) true (read_dir (join_path dir archive_dir))) [
          | none ↦ none
          | some archived ↦ some (sort_by bytes_lt (at_root ++ archived))
        ]
  ]

  abbrev pub mismatched : Bytes → Bytes → Bool → Listing → Option (List (Bytes × Bytes))
  mismatched scope root optional (entries es) = some (mismatches_of scope root es)
  mismatched scope root optional unreadable =
      if optional && optional_dir_miss (stat root) then some [] else none

  unfoldable pub mismatches_in : Bytes → List (Bytes × Bool) → Option (List (Bytes × Bytes))
  unfolding mismatches_of optional_dir_miss
  mismatches_in scope [] = some []
  mismatches_in scope ((root, optional) ∷ roots) =
      elim (mismatched scope root optional (read_dir root)) [
        | none ↦ none
        | some here ↦ elim (mismatches_in scope roots) [
          | none ↦ none
          | some rest ↦ some (here ++ rest)
        ]
      ]

  unfoldable pub prefix_mismatches : Bytes → Bytes → Option (List (Bytes × Bytes))
  unfolding mismatches_in join_path sort_by bytes_lt
  prefix_mismatches dir scope =
      let roots =
        (dir, false) ∷ (join_path dir archive_dir, true) ∷ (join_path dir design_dir, true) ∷ [] in
      elim (mismatches_in scope roots) [
        | none ↦ none
        | some out ↦ some (sort_by (λ (x y : Bytes × Bytes). bytes_lt x.0 y.0) out)
      ]
