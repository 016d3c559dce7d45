-- ===== src/Rewrite.antt =====
-- internal/rewrite/rewrite.go: rewriting files in place or at a new path. The store answers for each path with the
-- file's bytes, `none` where there is no file; faults of the disk are not modelled. An empty path is
-- `OldPath` of a write that creates a file.
mod Again
mod Examples
use tk.Prelude.{
  Bool, true, false, ◌&&◌, ◌||◌, not, Option, none, some, List, [], ◌∷◌, ◌++◌, Bytes, bytes_eq,
  if◌then◌else◌,
}

abbrev pub Store : Type 0
Store = Bytes → Option Bytes

pub record Op : Type 0 where
  pub old_path : Bytes
  pub new_path : Bytes
  pub content : Bytes

abbrev pub put : Bytes → Option Bytes → Store → Store
put path o s p = if bytes_eq p path then o else s p

unfoldable pub is_move : Op → Bool
is_move op = not (bytes_eq op.old_path []) && not (bytes_eq op.old_path op.new_path)

abbrev pub gone : Option Bytes → Bool
gone none = true
gone (some c) = false

unfoldable pub already_done : Op → Store → Bool
already_done op s = gone (s op.old_path) && not (gone (s op.new_path))

abbrev pub holds_same : Option Bytes → Bytes → Bool
holds_same none content = true
holds_same (some c) content = bytes_eq c content

-- Whether `checkFreeDestination` lets the write go on.
unfoldable pub free_destination : Op → Store → Bool
free_destination op s = holds_same (s op.new_path) op.content

-- A step on one file: a write, or the removal of the old path.
pub data Step : Type 0 where
  write_file : Bytes → Bytes → Step
  remove_file : Bytes → Step

unfoldable pub take_step : Step → Store → Store
take_step (write_file path content) s = put path (some content) s
take_step (remove_file path) s = put path none s

unfoldable pub take_steps : List Step → Store → Store
unfolding take_step
take_steps [] s = s
take_steps (t ∷ ts) s = take_steps ts (take_step t s)

-- The steps of one op from a store; `none` is the refusal.
unfoldable pub steps_of : Op → Store → Option (List Step)
unfolding is_move already_done free_destination
steps_of op s =
    if is_move op && already_done op s
    then some []
    else if not (bytes_eq op.old_path op.new_path) && not (free_destination op s)
    then none
    else if is_move op
    then some (write_file op.new_path op.content ∷ remove_file op.old_path ∷ [])
    else some (write_file op.new_path op.content ∷ [])

unfoldable pub touched_by : Op → List Bytes
unfolding is_move
touched_by op = if is_move op then op.new_path ∷ op.old_path ∷ [] else op.new_path ∷ []

pub record Applied : Type 0 where
  pub touched : List Bytes
  pub ok : Bool
  pub store : Store

-- `Apply`: it stops at the first refusal.
unfoldable pub apply : List Op → Store → Applied
unfolding steps_of take_steps touched_by
apply [] s = record { touched = []; ok = true; store = s }
apply (op ∷ ops) s = elim (steps_of op s) [
  | none ↦ record { touched = []; ok = false; store = s }
  | some ts ↦
      let rest = apply ops (take_steps ts s) in
      record rest { touched = touched_by op ++ rest.touched }
]
