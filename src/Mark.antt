-- ===== src/Mark.antt =====
-- internal/writeengine/mark.go and the writes of claim.go: a change of status and the move across the archive. The
-- state is the store of readable ticket files, by path. The clock's time, the making of the archive
-- directory and what stands before a write (Session) are parameters; locks, network, commits and the
-- depends gate of the result are not modelled.
pub mod Handlers
mod Moves
mod Places
mod Claims
mod Examples
use tk.Prelude.{
  ℕ, Bool, true, false, ◌&&◌, ◌||◌, not, Option, none, some, List, [], ◌∷◌, ◌++◌, Bytes, codes,
  bytes_eq, contains, lookup, any, if◌then◌else◌,
}
use tk.Session.{HoldType, refuse_hard, refuse_start}
use tk.Status.{Customs, todo, in_progress, review, is_known, is_terminal}
use tk.Depgate.{Ticket}
use tk.Frontmatter.{Model}
use tk.Schema.{Schema, missing_required}
use tk.Scopefile.{join_path, last_slash, archive_dir}
use tk.Placement.{Lookup, query_of, Answer, answer, failure, Failure, resolve_write_row}

unfoldable pub refuse_status_hold : Bytes → Option HoldType → Bool
unfolding refuse_hard refuse_start
refuse_status_hold new_status hold =
    if refuse_hard hold
    then true
    else if bytes_eq new_status in_progress
    then refuse_start hold
    else false

-- A file's frontmatter and body, and the files by their paths.
abbrev pub File : Type 0
File = Model × Bytes

abbrev pub Files : Type 0
Files = List (Bytes × File)

unfoldable pub put_file : Files → Bytes → File → Files
put_file [] path x = (path, x) ∷ []
put_file ((p, y) ∷ fs) path x = if bytes_eq p path then (p, x) ∷ fs else (p, y) ∷ put_file fs path x

unfoldable pub remove_file : Files → Bytes → Files
remove_file [] path = []
remove_file ((p, y) ∷ fs) path =
    if bytes_eq p path then remove_file fs path else (p, y) ∷ remove_file fs path

-- `WriteTicketFile` and `os.Rename`
pub data FileOp : Type 0 where
  write_file : Bytes → File → FileOp
  move_file : Bytes → Bytes → FileOp

unfoldable pub apply_op : FileOp → Files → Files
unfolding put_file remove_file lookup
apply_op (write_file path x) fs = put_file fs path x
apply_op (move_file old_path new_path) fs = elim (lookup old_path fs) [
  | none ↦ fs
  | some x ↦ put_file (remove_file fs old_path) new_path x
]

unfoldable pub apply_ops : List FileOp → Files → Files
unfolding apply_op
apply_ops [] fs = fs
apply_ops (op ∷ ops) fs = apply_ops ops (apply_op op fs)

-- `filepath.Base`, of the path of a file: one that is not empty and does not end in a slash.
unfoldable pub base_of : Bytes → Bytes
unfolding last_slash
base_of path = elim (last_slash path) [ none ↦ path | some (d, b) ↦ b ]

unfoldable pub location : Bytes → Bytes → Bool → Bytes
unfolding join_path
location dir base terminal =
    if terminal then join_path (join_path dir archive_dir) base else join_path dir base

-- `TerminalLocation`; `none` is its error, `made` whether the archive directory can be made.
unfoldable pub terminal_location : Bool → Bytes → Bytes → Bool → Option Bytes
unfolding location
terminal_location made dir base terminal =
    if not terminal
    then some (location dir base false)
    else if not made
    then none
    else some (location dir base true)

unfoldable pub marked : Bytes → Bytes → Model → Model
marked now new_status m = record m {
  status = new_status;
  changed = if bytes_eq m.status new_status then m.changed else now;
}

-- A relocation: what is done to the files, the new path, and the old path of a move.
pub record Relocation : Type 0 where
  pub ops : List FileOp
  pub new_path : Bytes
  pub old_path : Bytes

abbrev pub relocation_to : Bytes → File → Bytes → Relocation
relocation_to path x new_path =
    if bytes_eq path new_path
    then record { ops = write_file path x ∷ []; new_path = new_path; old_path = path }
    else record {
      ops = write_file path x ∷ move_file path new_path ∷ [];
      new_path = new_path;
      old_path = path;
    }

-- The steps of `relocateAndWrite`; `none` is its error.
unfoldable pub relocate : Bool → Bytes → Bytes → Bytes → Customs → Bytes → File → Option Relocation
unfolding terminal_location base_of marked is_terminal
relocate made now dir new_status custom path (m, body) =
    if is_terminal m.status custom && is_terminal new_status custom
      || not (is_terminal m.status custom) && not (is_terminal new_status custom)
    then some (record {
      ops = write_file path (marked now new_status m, body) ∷ [];
      new_path = path;
      old_path = [];
    })
    else elim (terminal_location made dir (base_of path) (is_terminal new_status custom)) [
      | none ↦ none
      | some new_path ↦ some (relocation_to path (marked now new_status m, body) new_path)
    ]

unfoldable pub written_paths : Bytes → Bytes → List Bytes
written_paths new_path old_path =
    if bytes_eq old_path [] || bytes_eq old_path new_path
    then new_path ∷ []
    else new_path ∷ old_path ∷ []

pub record Prepared : Type 0 where
  pub row : Ticket
  pub file : File

pub record Member : Type 0 where
  pub path : Bytes
  pub id : Bytes
  pub old_status : Bytes
  pub new_status : Bytes
  pub moved : Bool
  pub required_missing : List Bytes

pub data Refusal : Type 0 where
  unusable unknown_status held mid_rebase usage unreadable no_archive no_longer_todo : Refusal
  of_row : Failure → Refusal

pub data Preflight : Type 0 where
  prepared : List Prepared → Preflight
  refused : Refusal → Preflight

unfoldable pub assemble_member : Schema → Bytes → Bytes → Prepared → Relocation → Member
unfolding missing_required marked
assemble_member schema now new_status p r = record {
  path = r.new_path;
  id = p.row.id;
  old_status = p.file.0.status;
  new_status = new_status;
  moved = not (bytes_eq r.old_path []) && not (bytes_eq r.old_path r.new_path);
  required_missing =
      if not (bytes_eq p.file.0.status new_status) && bytes_eq new_status tk.Status.done
      then missing_required schema (marked now new_status p.file.0)
      else [];
}

-- What a call did: its error, and else the members; in both cases the files as they are left.
pub record Written : Type 0 where
  pub error : Option Refusal
  pub members : List Member
  pub paths : List Bytes
  pub files : Files

module _ (made : Bool) (now dir : Bytes) (schema : Schema) (new_status : Bytes) where
  -- `writePreparedMarks`
  unfoldable pub write_prepared_marks : List Prepared → Files → Written
  unfolding relocate apply_ops assemble_member written_paths
  write_prepared_marks [] fs = record { error = none; members = []; paths = []; files = fs }
  write_prepared_marks (p ∷ ps) fs =
      elim (relocate made now dir new_status schema.statuses p.row.path p.file) [
        | none ↦ record { error = some no_archive; members = []; paths = []; files = fs }
        | some r ↦
            let rest = write_prepared_marks ps (apply_ops r.ops fs) in
            record {
              error = rest.error;
              members = assemble_member schema now new_status p r ∷ rest.members;
              paths = written_paths r.new_path r.old_path ++ rest.paths;
              files = rest.files;
            }
      ]

abbrev pub keep_prepared : Prepared → Preflight → Preflight
keep_prepared p (prepared ps) = prepared (p ∷ ps)
keep_prepared p (refused r) = refused r

module _ (rows_of : Bool → Bytes → List Ticket) (fs : Files) where
  abbrev pub answer_for : Lookup → Answer Ticket
  answer_for l = resolve_write_row (rows_of l.by_full (query_of l))

  -- `preflightMarks`, with the ids that were seen.
  unfoldable pub preflight_from : List Bytes → List Lookup → Preflight
  unfolding resolve_write_row query_of contains lookup
  preflight_from seen [] = prepared []
  preflight_from seen (l ∷ ls) = elim (answer_for l) [
    | failure f ↦ refused (of_row f)
    | answer p ↦ if contains seen p.id then preflight_from seen ls else elim (lookup p.path fs) [
      | none ↦ refused unreadable
      | some x ↦ keep_prepared (record { row = p; file = x }) (preflight_from (p.id ∷ seen) ls)
    ]
  ]

  unfoldable pub preflight_marks : List Lookup → Preflight
  unfolding preflight_from
  preflight_marks ls = preflight_from [] ls
