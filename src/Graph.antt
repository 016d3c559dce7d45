-- ===== src/Graph.antt =====
-- internal/tkv/graph.go: the ranks of the tickets in the picture of a board's dependencies. A Go map is the list of
-- its entries in the order of an iteration over it. The layout in the plane, which compares floats, is
-- not modelled.
mod Rounds
mod Examples
use tk.Prelude.{
  ℕ, zero, suc, ◌+◌, ◌-◌, Bool, true, false, ◌&&◌, ◌||◌, not, Option, none, some, List, [], ◌∷◌,
  ◌++◌, Bytes, bytes_eq, bytes_lt, contains, lookup, has_key, length, map, sort_by, ◌==◌,
  if◌then◌else◌,
}
use tk.Status.{Customs, in_default_list}
use tk.Depgate.{Ticket}

abbrev pub Deps : Type 0
Deps = List (Bytes × List Bytes)

abbrev pub Counts : Type 0
Counts = List (Bytes × ℕ)

-- The targets of one ticket that are present, each once.
unfoldable pub kept_targets : List Bytes → List Bytes → List Bytes → List Bytes
unfolding contains
kept_targets ids seen [] = []
kept_targets ids seen (to ∷ tos) =
    let skipped = kept_targets ids seen tos in
    let kept = kept_targets ids (to ∷ seen) tos in
    if not (contains ids to) || contains seen to then skipped else to ∷ kept

-- The edges that are counted, from a ticket to one that it depends on.
unfoldable pub kept_edges : List Bytes → Deps → List (Bytes × Bytes)
unfolding kept_targets contains
kept_edges ids [] = []
kept_edges ids ((from, tos) ∷ deps) =
    if not (contains ids from)
    then kept_edges ids deps
    else map (λ (to : Bytes). (from, to)) (kept_targets ids [] tos) ++ kept_edges ids deps

unfoldable pub put_count : Counts → Bytes → ℕ → Counts
put_count [] k n = (k, n) ∷ []
put_count ((j, m) ∷ c) k n = if bytes_eq j k then (j, n) ∷ c else (j, m) ∷ put_count c k n

abbrev pub count_of : Option ℕ → ℕ
count_of none = 0
count_of (some n) = n

-- `indeg[from]++` over the edges.
unfoldable pub count_edges : Counts → List (Bytes × Bytes) → Counts
unfolding put_count lookup
count_edges c [] = c
count_edges c ((from, to) ∷ es) = count_edges (put_count c from (count_of (lookup from c) + 1)) es

-- `rev[to]`
unfoldable pub rev_of : Bytes → List (Bytes × Bytes) → List Bytes
rev_of to [] = []
rev_of to ((from, t) ∷ es) = if bytes_eq t to then from ∷ rev_of to es else rev_of to es

-- `reverseAdj`, on the entry of one ticket.
unfoldable pub reverse_adj : Bytes → Deps → List Bytes
unfolding rev_of
reverse_adj to [] = []
reverse_adj to ((from, tos) ∷ deps) =
    rev_of to (map (λ (t : Bytes). (from, t)) tos) ++ reverse_adj to deps

-- `indeg[dep]--` and the test for 0. A count that is 0 stays 0 here: below 0 it would never be 0 again.
unfoldable pub release : Counts → Bytes → Counts × List Bytes
unfolding put_count lookup
release c dep =
    let n = count_of (lookup dep c) in
    if n == 1
    then (put_count c dep 0, dep ∷ [])
    else if n == 0
    then (c, [])
    else (put_count c dep (n - 1), [])

unfoldable pub release_all : Counts → List Bytes → Counts × List Bytes
unfolding release
release_all c [] = (c, [])
release_all c (dep ∷ deps) =
    let (c', freed) = release c dep in let (c'', rest) = release_all c' deps in (c'', freed ++ rest)

-- One layer: the ranks, the counts and the next layer.
unfoldable pub layer_step :
    List (Bytes × Bytes) → ℕ → List Bytes → Counts → Counts → (Counts × Counts) × List Bytes
unfolding rev_of release_all put_count
layer_step edges layer [] c ranks = ((c, ranks), [])
layer_step edges layer (id ∷ q) c ranks =
    let (c', freed) = release_all c (rev_of id edges) in
    let ((c'', ranks'), rest) = layer_step edges layer q c' (put_count ranks id layer) in
    ((c'', ranks'), freed ++ rest)

pub data Layers : Type 0 where
  layered : Counts → ℕ → Layers
  out_of_fuel : Layers

-- The loop while the queue is not empty, on fuel.
unfoldable pub layers : List (Bytes × Bytes) → ℕ → ℕ → List Bytes → Counts → Counts → Layers
unfolding layer_step sort_by bytes_lt
layers edges fuel layer [] c ranks = layered ranks layer
layers edges zero layer (id ∷ q) c ranks = out_of_fuel
layers edges (suc f) layer (id ∷ q) c ranks =
    let ((c', ranks'), next) = layer_step edges layer (id ∷ q) c ranks in
    layers edges f (suc layer) (sort_by bytes_lt next) c' ranks'

unfoldable pub free_ids : Counts → List Bytes → List Bytes
unfolding lookup
free_ids c [] = []
free_ids c (id ∷ ids) = if count_of (lookup id c) == 0 then id ∷ free_ids c ids else free_ids c ids

-- The tickets of a cycle, and those above one, share the last layer.
unfoldable pub rank_rest : ℕ → List Bytes → Counts → Counts
unfolding put_count has_key
rank_rest layer [] ranks = ranks
rank_rest layer (id ∷ ids) ranks =
    rank_rest layer ids (if has_key id ranks then ranks else put_count ranks id layer)

abbrev pub with_rest : List Bytes → Layers → Option Counts
with_rest ids (layered ranks layer) = some (rank_rest layer ids ranks)
with_rest ids out_of_fuel = none

abbrev pub no_counts : List Bytes → Counts
no_counts [] = []
no_counts (id ∷ ids) = (id, 0) ∷ no_counts ids

-- `assignRanks`; it gives as many layers as there are tickets, and one more.
unfoldable pub assign_ranks : List Bytes → Deps → Option Counts
unfolding layers kept_edges count_edges free_ids rank_rest sort_by bytes_lt
assign_ranks ids deps =
    let edges = kept_edges ids deps in
    let c = count_edges (no_counts ids) edges in
    with_rest ids (layers edges (length ids + 1) 0 (sort_by bytes_lt (free_ids c ids)) c [])

-- The loop of `countIsolated`, with the tickets that were seen.
unfoldable pub count_isolated : Bytes → Bool → Customs → List Bytes → List Bytes → List Ticket → ℕ
unfolding contains in_default_list
count_isolated scope all_of custom in_graph seen [] = 0
count_isolated scope all_of custom in_graph seen (t ∷ ts) =
    let same = count_isolated scope all_of custom in_graph seen ts in
    let rest = count_isolated scope all_of custom in_graph (t.id ∷ seen) ts in
    if t.parse_error || not (bytes_eq t.scope scope) || contains seen t.id
    then same
    else if not all_of && (t.archived || not (in_default_list t.status custom))
    then rest
    else if contains in_graph t.id
    then rest
    else suc rest
