-- ===== src/Placement/Slots.antt =====
-- internal/writeengine/order.go: the two sides of a place in a sorted list of tickets.
use tk.Prelude.{
  ℕ, suc, ◌+◌, ◌-◌, ◌∙◌, length-append, bytes_lt_irrefl, Bool, true, false, some, List, [], ◌∷◌,
  ◌++◌, Bytes, ◌≡◌, refl, ap, arith, bytes_eq, bytes_eq_iff, bytes_lt, bytes_lt_gap, Bool-cases,
  Option-cases, inl, inr, length, ltb, all, all-In, IsSorted, if◌then◌else◌,
}
use tk.Depgate.{Ticket, ticket_before}
use tk.Placement.{last_key, first_key, key_at, index_of_path}

abbrev pub all_below : Bytes → List Ticket → Bool
all_below k = all (λ q. bytes_lt q.order_key k)

abbrev pub all_above : Bytes → List Ticket → Bool
all_above k = all (λ q. bytes_lt k q.order_key)

before-order_key :
    (p q : Ticket) → ticket_before q p ≡ false → bytes_lt q.order_key p.order_key ≡ false
unfolding ticket_before
before-order_key p q h =
    ground (arith, bytes_eq_iff q.order_key p.order_key, bytes_lt_irrefl p.order_key)

pub IsSorted-append :
    (pre post : List Ticket) → IsSorted ticket_before (pre ++ post) → IsSorted ticket_before post
IsSorted-append [] post s = s
IsSorted-append (p ∷ pre) post (_, s) = IsSorted-append pre post s

pub all_below-last_key :
    (pre post : List Ticket) (k : Bytes)
    → IsSorted ticket_before (pre ++ post)
    → bytes_lt (last_key pre) k ≡ true
    → all_below k pre ≡ true
unfolding last_key
all_below-last_key [] post k s h = refl
all_below-last_key (p ∷ []) post k s h = ground arith
all_below-last_key (p ∷ q ∷ pre) post k (least, s) h =
    let rest = all_below-last_key (q ∷ pre) post k s h in
    let behind = before-order_key p q (least q (inl refl)) in
    ground (arith, rest, bytes_lt_gap q.order_key p.order_key k behind)

pub all_above-first_key :
    (post : List Ticket) (k : Bytes)
    → IsSorted ticket_before post
    → bytes_lt k (first_key post) ≡ true
    → all_above k post ≡ true
all_above-first_key [] k s h = refl
all_above-first_key (p ∷ post) k (least, s) h =
    let rest =
      all-In (λ q. bytes_lt k q.order_key) post
        (λ q i. elim (Bool-cases (bytes_lt k q.order_key)) [
          | inl e ↦ e
          | inr e ↦ absurd (
              ground (
                arith,
                bytes_lt_gap k q.order_key p.order_key e (before-order_key p q (least q i)),
              ))
        ]) in
    ground (arith, rest)

-- Where a path stands.
pub record Slot (path : Bytes) (l : List Ticket) (i : ℕ) : Type 0 where
  pub pre : List Ticket
  pub row : Ticket
  pub post : List Ticket
  pub split : l ≡ pre ++ row ∷ post
  pub at : bytes_eq row.path path ≡ true
  pub size : i ≡ length pre

-- The index that the search finds is that of a ticket with the path.
pub index_of_path-Slot :
    (path : Bytes) (l : List Ticket) {i : ℕ} → index_of_path path l ≡ some i → Slot path l i
unfolding index_of_path
index_of_path-Slot path [] h = absurd cc
index_of_path-Slot path (p ∷ ps) {i} h = elim (Bool-cases (bytes_eq p.path path)) [
  | inl e ↦
      let x = rw e at h in
      let zeroth : i ≡ 0 = cc in
      record { pre = []; row = p; post = ps; split = refl; at = e; size = zeroth }
  | inr e ↦ elim (Option-cases (index_of_path path ps)) [
    | inl f ↦ absurd (let x = rw (e, f) at h in cc)
    | inr (j, f) ↦
        let x = rw (e, f) at h in
        let next : i ≡ suc j = cc in
        let s = index_of_path-Slot path ps f in
        record {
          pre = p ∷ s.pre;
          row = s.row;
          post = s.post;
          split = ap (◌∷◌ p) s.split;
          at = s.at;
          size = next ∙ ap suc s.size;
        }
  ]
]

key_at-last :
    (p : Ticket) (pre rest : List Ticket)
    → key_at (length pre) (p ∷ pre ++ rest) ≡ last_key (p ∷ pre)
unfolding key_at last_key
key_at-last p [] rest = refl
key_at-last p (q ∷ pre) rest = key_at-last q pre rest

pub key_at-left :
    (pre rest : List Ticket)
    → (if ltb 0 (length pre) then key_at (length pre - 1) (pre ++ rest) else []) ≡ last_key pre
unfolding last_key
key_at-left [] rest = refl
key_at-left (p ∷ pre) rest =
    let some_left : ltb 0 (suc (length pre)) ≡ true = ground arith in
    let one_less : suc (length pre) - 1 ≡ length pre = omega arith in
    rw (some_left, one_less) (key_at-last p pre rest)

key_at-next :
    (pre : List Ticket) (row : Ticket) (post : List Ticket)
    → key_at (suc (length pre)) (pre ++ row ∷ post) ≡ first_key post
unfolding key_at
key_at-next [] row [] = refl
key_at-next [] row (q ∷ post) = refl
key_at-next (p ∷ pre) row post = key_at-next pre row post

pub key_at-right :
    (pre : List Ticket) (row : Ticket) (post : List Ticket)
    → (if ltb (length pre) (length (pre ++ row ∷ post) - 1)
        then key_at (length pre + 1) (pre ++ row ∷ post)
        else [])
      ≡ first_key post
key_at-right pre row [] =
    let whole = length-append pre (row ∷ []) in
    let none_right : ltb (length pre) (length (pre ++ row ∷ []) - 1) ≡ false =
      ground (arith, whole) in
    rw none_right refl
key_at-right pre row (q ∷ post) =
    let whole = length-append pre (row ∷ q ∷ post) in
    let some_right : ltb (length pre) (length (pre ++ row ∷ q ∷ post) - 1) ≡ true =
      ground (arith, whole) in
    let one_more : length pre + 1 ≡ suc (length pre) = omega arith in
    rw (some_right, one_more) (key_at-next pre row (q ∷ post))
