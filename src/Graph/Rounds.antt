-- ===== src/Graph/Rounds.antt =====
-- internal/tkv/graph.go: the loop over the layers ends, and it leaves no ticket without a rank.
use tk.Prelude.{
  ℕ, zero, suc, ◌+◌, ◌-◌, ◌≤◌, ◌<◌, Bool, true, false, Option, none, some, List, [], ◌∷◌, ◌++◌,
  Bytes, ◌≡◌, refl, ◌∙◌, arith, ap, all, map, length, length-append, lookup, has_key, contains,
  bytes_eq, bytes_eq_iff, bytes_lt, sort_by, ◌==◌, ==_iff, Bool-cases, inl, inr, if◌then◌else◌,
}
use tk.Graph.{
  Deps, Counts, kept_targets, kept_edges, put_count, count_of, count_edges, rev_of, release,
  release_all, layer_step, Layers, layered, layers, free_ids, rank_rest, with_rest, no_counts,
  assign_ranks,
}

-- How many counts are above 0.
abbrev pub sign : ℕ → ℕ
sign zero = 0
sign (suc n) = 1

abbrev pub pending : Counts → ℕ
pending [] = 0
pending ((k, n) ∷ c) = sign n + pending c

pending-length : (c : Counts) → pending c ≤ length c
pending-length [] = omega arith
pending-length ((k, zero) ∷ c) = omega (arith, pending-length c)
pending-length ((k, suc n) ∷ c) = omega (arith, pending-length c)

pending-put_count :
    (c : Counts) (k : Bytes) (m : ℕ) {n : ℕ}
    → lookup k c ≡ some n
    → pending (put_count c k m) + sign n ≡ pending c + sign m
unfolding put_count lookup
pending-put_count [] k m h = absurd cc
pending-put_count ((j, v) ∷ c) k m {n} h = elim (Bool-cases (bytes_eq j k)) [
  | inl e ↦ let x = rw e at h in let same : v ≡ n = cc in rw (e, same) (omega arith)
  | inr e ↦ rw e (omega (arith, pending-put_count c k m (rw e at h)))
]

sign-two : (n : ℕ) → (n == 1) ≡ false → (n == 0) ≡ false → sign (n - 1) ≡ sign n
sign-two zero f g = absurd (ground arith)
sign-two (suc zero) f g = absurd (ground arith)
sign-two (suc (suc n)) f g = let less : suc (suc n) - 1 ≡ suc n = omega arith in rw less refl

-- A release frees as many tickets as there are counts fewer.
release-pending :
    (c : Counts) (dep : Bytes) → pending (release c dep).0 + length (release c dep).1 ≤ pending c
unfolding release
release-pending c dep = go (lookup dep c) refl
  where
    go :
        (o : Option ℕ)
        → lookup dep c ≡ o
        → pending (release c dep).0 + length (release c dep).1 ≤ pending c
    go none e = rw (e, release) (omega arith)
    go (some n) e = elim (Bool-cases (n == 1)) [
      | inl f ↦
          let one : n ≡ 1 = (==_iff n 1).0 f in
          let some_one : lookup dep c ≡ some 1 = e ∙ ap some one in
          rw (e, f, release) (omega (arith, pending-put_count c dep 0 some_one))
      | inr f ↦ elim (Bool-cases (n == 0)) [
        | inl g ↦ rw (e, f, g, release) (omega arith)
        | inr g ↦
            rw (e, f, g, release) (omega (arith, pending-put_count c dep (n - 1) e, sign-two n f g))
      ]
    ]

release_all-pending :
    (c : Counts) (deps : List Bytes)
    → pending (release_all c deps).0 + length (release_all c deps).1 ≤ pending c
unfolding release_all
release_all-pending c [] = omega arith
release_all-pending c (dep ∷ deps) = omega (
  arith,
  release-pending c dep,
  release_all-pending (release c dep).0 deps,
  length-append (release c dep).1 (release_all (release c dep).0 deps).1,
)

layer_step-pending :
    (edges : List (Bytes × Bytes)) (layer : ℕ) (q : List Bytes) (c ranks : Counts)
    → pending (layer_step edges layer q c ranks).0.0 + length (layer_step edges layer q c ranks).1
      ≤ pending c
unfolding layer_step
layer_step-pending edges layer [] c ranks = omega arith
layer_step-pending edges layer (id ∷ q) c ranks =
    let freed = release_all c (rev_of id edges) in
    let rest = layer_step edges layer q freed.0 (put_count ranks id layer) in
    omega (
      arith,
      release_all-pending c (rev_of id edges),
      layer_step-pending edges layer q freed.0 (put_count ranks id layer),
      length-append freed.1 rest.1,
    )

abbrev pub IsLayered : Layers → Type 0
IsLayered l = (ranks : Counts) × (layer : ℕ) × (l ≡ layered ranks layer)

-- Fuel for one round more than there are counts above 0 is enough.
layers-IsLayered :
    (edges : List (Bytes × Bytes)) (fuel layer : ℕ) (q : List Bytes) (c ranks : Counts)
    → pending c < fuel
    → IsLayered (layers edges fuel layer q c ranks)
unfolding layers sort_by
layers-IsLayered edges fuel layer [] c ranks h = (ranks, layer, refl)
layers-IsLayered edges zero layer (id ∷ q) c ranks h = absurd (omega arith)
layers-IsLayered edges (suc f) layer (id ∷ q) c ranks h =
    let step = layer_step edges layer (id ∷ q) c ranks in
    next step.1 step.0.0 step.0.1 (layer_step-pending edges layer (id ∷ q) c ranks)
      (λ (l : pending step.0.0 < f).
        layers-IsLayered edges f (suc layer) (sort_by bytes_lt step.1) step.0.0 step.0.1 l)
  where
    next :
        (freed : List Bytes) (c' r' : Counts)
        → pending c' + length freed ≤ pending c
        → (pending c' < f → IsLayered (layers edges f (suc layer) (sort_by bytes_lt freed) c' r'))
        → IsLayered (layers edges f (suc layer) (sort_by bytes_lt freed) c' r')
    next [] c' r' p k = (r', suc layer, refl)
    next (d ∷ ds) c' r' p k = k (omega arith)

has_key-put_count : (c : Counts) (k : Bytes) (n : ℕ) → has_key k (put_count c k n) ≡ true
unfolding has_key put_count
has_key-put_count [] k n = ground (arith, bytes_eq_iff k k)
has_key-put_count ((j, m) ∷ c) k n = elim (Bool-cases (bytes_eq j k)) [
  | inl e ↦ rw (e, e) refl
  | inr e ↦ rw (e, e) (has_key-put_count c k n)
]

has_key-kept :
    (c : Counts) (k : Bytes) (n : ℕ) (i : Bytes)
    → has_key i c ≡ true
    → has_key i (put_count c k n) ≡ true
unfolding has_key put_count
has_key-kept [] k n i h = absurd cc
has_key-kept ((j, m) ∷ c) k n i h = elim (Bool-cases (bytes_eq j k)) [
  | inl e ↦ rw e h
  | inr e ↦ rw e (ground (arith, has_key-kept c k n i))
]

length-put_count :
    (c : Counts) (k : Bytes) (n : ℕ) → has_key k c ≡ true → length (put_count c k n) ≡ length c
unfolding has_key put_count
length-put_count [] k n h = absurd cc
length-put_count ((j, m) ∷ c) k n h = elim (Bool-cases (bytes_eq j k)) [
  | inl e ↦ rw e refl
  | inr e ↦ rw e (omega (arith, length-put_count c k n (rw e at h)))
]

has_key-rank_rest :
    (layer : ℕ) (ids : List Bytes) (ranks : Counts) (i : Bytes)
    → has_key i ranks ≡ true
    → has_key i (rank_rest layer ids ranks) ≡ true
unfolding rank_rest
has_key-rank_rest layer [] ranks i h = h
has_key-rank_rest layer (id ∷ ids) ranks i h = elim (Bool-cases (has_key id ranks)) [
  | inl e ↦ rw e (has_key-rank_rest layer ids ranks i h)
  | inr e ↦
      rw e
        (has_key-rank_rest layer ids (put_count ranks id layer) i (has_key-kept ranks id layer i h))
]

abbrev pub all_ranked : List Bytes → Counts → Bool
all_ranked ids ranks = all (λ (id : Bytes). has_key id ranks) ids

rank_rest-all_ranked :
    (layer : ℕ) (ids : List Bytes) (ranks : Counts)
    → all_ranked ids (rank_rest layer ids ranks) ≡ true
unfolding rank_rest
rank_rest-all_ranked layer [] ranks = refl
rank_rest-all_ranked layer (id ∷ ids) ranks =
    let ranks' : Counts = if has_key id ranks then ranks else put_count ranks id layer in
    let there : has_key id ranks' ≡ true = elim (Bool-cases (has_key id ranks)) [
      | inl e ↦ rw e e
      | inr e ↦ rw e (has_key-put_count ranks id layer)
    ] in
    rw (has_key-rank_rest layer ids ranks' id there) (rank_rest-all_ranked layer ids ranks')

-- The edges that are counted start at tickets of the board.
abbrev pub starts_in : Counts → List (Bytes × Bytes) → Bool
starts_in c es = all (λ (e : Bytes × Bytes). has_key e.0 c) es

starts_in-kept :
    (c : Counts) (k : Bytes) (n : ℕ) (es : List (Bytes × Bytes))
    → starts_in c es ≡ true
    → starts_in (put_count c k n) es ≡ true
starts_in-kept c k n [] h = refl
starts_in-kept c k n ((from, to) ∷ es) h =
    ground (arith, has_key-kept c k n from, starts_in-kept c k n es)

length-count_edges :
    (c : Counts) (es : List (Bytes × Bytes))
    → starts_in c es ≡ true
    → length (count_edges c es) ≡ length c
unfolding count_edges
length-count_edges c [] h = refl
length-count_edges c ((from, to) ∷ es) h =
    let c' : Counts = put_count c from (count_of (lookup from c) + 1) in
    let first : has_key from c ≡ true = ground arith in
    let rest : starts_in c es ≡ true = ground arith in
    length-count_edges c' es (starts_in-kept c from (count_of (lookup from c) + 1) es rest)
    ∙ length-put_count c from (count_of (lookup from c) + 1) first

length-no_counts : (ids : List Bytes) → length (no_counts ids) ≡ length ids
length-no_counts [] = refl
length-no_counts (id ∷ ids) = omega (arith, length-no_counts ids)

has_key-no_counts :
    (ids : List Bytes) (id : Bytes) → contains ids id ≡ true → has_key id (no_counts ids) ≡ true
unfolding has_key contains
has_key-no_counts [] id h = absurd cc
has_key-no_counts (i ∷ ids) id h = ground (arith, has_key-no_counts ids id)

starts_in-targets :
    (c : Counts) (from : Bytes) (tos : List Bytes) (es : List (Bytes × Bytes))
    → has_key from c ≡ true
    → starts_in c es ≡ true
    → starts_in c (map (λ (to : Bytes). (from, to)) tos ++ es) ≡ true
starts_in-targets c from [] es h k = k
starts_in-targets c from (t ∷ tos) es h k = ground (arith, starts_in-targets c from tos es)

starts_in-kept_edges :
    (ids : List Bytes) (deps : Deps) → starts_in (no_counts ids) (kept_edges ids deps) ≡ true
unfolding kept_edges
starts_in-kept_edges ids [] = refl
starts_in-kept_edges ids ((from, tos) ∷ deps) = elim (Bool-cases (contains ids from)) [
  | inr e ↦ rw e (starts_in-kept_edges ids deps)
  | inl e ↦ rw e (
      starts_in-targets (no_counts ids) from (kept_targets ids [] tos) (kept_edges ids deps)
        (has_key-no_counts ids from e) (starts_in-kept_edges ids deps))
]

-- The ranking ends for every graph, with cycles too: as many rounds as there are tickets, and one more, are
-- enough, and every ticket gets a rank.
pub assign_ranks-all_ranked :
    (ids : List Bytes) (deps : Deps)
    → (ranks : Counts) × (assign_ranks ids deps ≡ some ranks) × (all_ranked ids ranks ≡ true)
unfolding assign_ranks
assign_ranks-all_ranked ids deps =
    let edges = kept_edges ids deps in
    let c : Counts = count_edges (no_counts ids) edges in
    let bound : pending c < length ids + 1 = omega (
      arith,
      pending-length c,
      length-count_edges (no_counts ids) edges (starts_in-kept_edges ids deps),
      length-no_counts ids,
    ) in
    let (ranks, layer, e) =
      layers-IsLayered edges (length ids + 1) 0 (sort_by bytes_lt (free_ids c ids)) c [] bound in
    (rank_rest layer ids ranks, ap (with_rest ids) e, rank_rest-all_ranked layer ids ranks)
