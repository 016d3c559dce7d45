-- ===== src/Rewrite/Examples.antt =====
-- Runs of internal/rewrite/rewrite.go: a move that a crash cut short after its write.
use tk.Prelude.{none, some, List, [], ◌∷◌, take, codes, ◌≡◌, refl, bytes_eq, if◌then◌else◌}
use tk.Rewrite.{Store, Op, Step, write_file, remove_file, take_steps, steps_of}
use tk.Rewrite.Again.{Finishes, steps_of-again}

abbrev op : Op
op = record { old_path = codes "/b/a.md"; new_path = codes "/b/c.md"; content = codes "new" }

abbrev store : Store
store path = if bytes_eq path (codes "/b/a.md") then some (codes "old") else none

abbrev steps : List Step
steps = write_file (codes "/b/c.md") (codes "new") ∷ remove_file (codes "/b/a.md") ∷ []

steps_run : steps_of op store ≡ some steps
unfolding steps_of bytes_eq
steps_run = refl

steps_of-again_example : Finishes op (take_steps (take 1 steps) store) (take_steps steps store)
steps_of-again_example = steps_of-again op store steps 1 steps_run
