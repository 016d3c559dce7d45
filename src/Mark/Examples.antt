-- ===== src/Mark/Examples.antt =====
-- Runs of internal/writeengine/mark.go: a todo ticket that is done, and one that is claimed.
use tk.Prelude.{
  Bool, true, false, Option, none, some, List, [], ◌∷◌, Bytes, codes, ◌≡◌, ◌≢◌, refl, ◌⊎◌, In,
  bytes_eq, contains, take, lookup,
}
use tk.Id.{has_byte}
use tk.Session.{HoldType, open_session}
use tk.Status.{Customs, todo, in_progress, is_terminal}
use tk.Depgate.{Ticket}
use tk.Frontmatter.{Model, no_model}
use tk.Schema.{Schema}
use tk.Placement.{Lookup}
use tk.Mark.{
  File, Files, Prepared, Written, marked, Relocation, write_file, move_file, relocate, apply_ops,
  location, write_prepared_marks,
}
use tk.Mark.Handlers.{wrote, claim_marks}
use tk.Mark.Moves.{IsKept, relocate-crash}
use tk.Mark.Places.{relocate-location}
use tk.Mark.Claims.{claim_marks-todo}

abbrev ticket : Ticket
ticket = record {
  path = codes "/b/tk-aaaa.md";
  scope = codes "tk";
  id = codes "tk-aaaa";
  status = todo;
  order_key = codes "a1";
  tags = [];
  archived = false;
  parse_error = false;
  schema_error = false;
}

abbrev model : Model
model = record no_model { id = codes "tk-aaaa"; status = todo }

abbrev path : Bytes
path = codes "/b/tk-aaaa.md"

abbrev files : Files
files =
    (codes "/b/tk-bbbb.md", (record model { id = codes "tk-bbbb" }, codes "b"))
    ∷ (path, (model, codes "a"))
    ∷ []

abbrev now : Bytes
now = codes "2026-01-02T03:04:05Z"

abbrev archived_path : Bytes
archived_path = codes "/b/archive/tk-aaaa.md"

abbrev done_file : File
done_file = (record model { status = tk.Status.done; changed = now }, codes "a")

abbrev done_move : Relocation
done_move = record {
  ops = write_file path done_file ∷ move_file path archived_path ∷ [];
  new_path = archived_path;
  old_path = path;
}

done_run : relocate true now (codes "/b") tk.Status.done [] path (model, codes "a") ≡ some done_move
unfolding relocate bytes_eq lookup
done_run = refl

stored : lookup path files ≡ some (model, codes "a")
unfolding lookup bytes_eq
stored = refl

relocate-crash_example :
    IsKept files path archived_path model (codes "a") (apply_ops (take 1 done_move.ops) files)
relocate-crash_example =
    relocate-crash true now (codes "/b") tk.Status.done [] files path model (codes "a") stored
      done_run 1

flat : has_byte (codes "tk-aaaa.md") b'/' ≡ false
unfolding has_byte
flat = refl

stands : path ≡ location (codes "/b") (codes "tk-aaaa.md") (is_terminal todo [])
unfolding location is_terminal bytes_eq lookup
stands = refl

relocate-location_example :
    (archived_path ≡ location (codes "/b") (codes "tk-aaaa.md") (is_terminal tk.Status.done []))
    × (lookup archived_path (apply_ops done_move.ops files)
        ≡ some (marked now tk.Status.done model, codes "a"))
    × (archived_path ≢ path → lookup path (apply_ops done_move.ops files) ≡ none)
    × ((p : Bytes)
        → p ≢ path
        → p ≢ archived_path
        → lookup p (apply_ops done_move.ops files) ≡ lookup p files)
relocate-location_example =
    relocate-location true now (codes "/b") tk.Status.done [] files (codes "tk-aaaa.md") path model
      (codes "a") flat stands done_run

abbrev schema : Schema
schema = record { name = codes "tk"; auto_commit = true; statuses = []; fields = [] }

abbrev one_row : Bool → Bytes → List Ticket
one_row full arg = ticket ∷ []

abbrev by_short : Lookup
by_short = record { arg = codes "aaaa"; query = []; by_full = false }

abbrev claimed : Written
claimed =
    write_prepared_marks true now (codes "/b") schema in_progress
      (record { row = ticket; file = (model, codes "a") } ∷ []) files

claim_run :
    claim_marks one_row true now
      (codes "/b")
      schema
      open_session
      true
      []
      in_progress
      (by_short ∷ [])
      files
    ≡ wrote claimed
unfolding claim_marks bytes_eq
claim_run = refl

claim_marks-todo_example :
    (◌≡◌ {A = Option HoldType} none none)
    × ((ps : List Prepared) × (claimed
          ≡ write_prepared_marks true now (codes "/b") schema in_progress ps files)
        × ((p : Prepared)
            → In p ps
            → (true ≡ true) ⊎ (contains [] p.row.id ≡ true)
            → (x : File) × (lookup p.row.path files ≡ some x) × (x.0.status ≡ todo)))
claim_marks-todo_example =
    claim_marks-todo one_row true now (codes "/b") schema open_session true [] in_progress
      (by_short ∷ []) files claim_run
