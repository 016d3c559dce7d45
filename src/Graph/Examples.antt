-- ===== src/Graph/Examples.antt =====
-- Runs of internal/tkv/graph.go on a chain with a cycle below it.
use tk.Prelude.{true, some, List, [], ◌∷◌, Bytes, codes, ◌≡◌, refl, bytes_eq, bytes_lt, sort_by}
use tk.Graph.{Deps, Counts, assign_ranks}
use tk.Graph.Rounds.{all_ranked, assign_ranks-all_ranked}

abbrev ids : List Bytes
ids = codes "a" ∷ codes "b" ∷ codes "c" ∷ codes "d" ∷ []

-- "b" depends on "a", and "c" and "d" depend on each other.
abbrev deps : Deps
deps = (codes "b", codes "a" ∷ []) ∷ (codes "c", codes "d" ∷ []) ∷ (codes "d", codes "c" ∷ []) ∷ []

ranks_test :
    assign_ranks ids deps
    ≡ some ((codes "a", 0) ∷ (codes "b", 1) ∷ (codes "c", 2) ∷ (codes "d", 2) ∷ [])
unfolding assign_ranks bytes_eq bytes_lt sort_by
ranks_test = refl

assign_ranks-all_ranked_example :
    (ranks : Counts) × (assign_ranks ids deps ≡ some ranks) × (all_ranked ids ranks ≡ true)
assign_ranks-all_ranked_example = assign_ranks-all_ranked ids deps
