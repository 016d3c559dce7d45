-- ===== src/Placement/Lands.antt =====
-- internal/writeengine/order.go: a ticket lands where it was asked to.
use tk.Prelude.{
  Bool, true, false, not, ◌||◌, List, [], ◌∷◌, Bytes, ◌≡◌, refl, sym, ap, ◌∙◌, append-nil, bytes_eq,
  Bool-cases, Option-cases, inl, inr, ◌==◌, In, IsSorted, sort_by, sort_by-In, sort_by-IsSorted,
  if◌then◌else◌,
}
use tk.Order.{valid, key_between, ok, err, Result}
use tk.Session.{Session, start_write}
use tk.Depgate.{Ticket, ticket_before, sort_tickets}
use tk.Depgate.Next.{ticket_before-IsOrder}
use tk.Placement.{
  Lookup, Dest, is_set, query_of, count, Answer, answer, failure, resolve_row, resolve_write_row,
  others_of, first_key, last_key, index_of_path, bounds_at, bounds_of_row, neighbour_bounds,
  order_bounds, key_of_bounds, key_of_subject, no_legal_order, order,
}
use tk.Placement.Beside.{
  beside, IsPlace, ends_at, head_path, is_none, neighbour_placed, others_of-In, placed, starts_at,
}

resolve_row-one : (rs : List Ticket) {p : Ticket} → resolve_row rs ≡ answer p → rs ≡ p ∷ []
unfolding resolve_row
resolve_row-one [] h = absurd cc
resolve_row-one (q ∷ []) {p} h = let same : q ≡ p = cc in rw same refl
resolve_row-one (q ∷ r ∷ rs) h = absurd cc

resolve_write_row-one :
    (rs : List Ticket) {p : Ticket} → resolve_write_row rs ≡ answer p → rs ≡ p ∷ []
unfolding resolve_write_row
resolve_write_row-one [] h = absurd cc
resolve_write_row-one (q ∷ []) {p} h = elim (Bool-cases q.parse_error) [
  | inl e ↦ absurd (let x = rw e at h in cc)
  | inr e ↦ let x = rw e at h in let same : q ≡ p = cc in rw same refl
]
resolve_write_row-one (q ∷ r ∷ rs) h = absurd cc

-- The neighbour's row and its place, of bounds that were found.
bounds_of_row-found :
    (before : Bool) (subject : Ticket) (others : List Ticket) (a : Answer Ticket)
    {x : Bytes × Bytes}
    → bounds_of_row before subject others a ≡ answer x
    → (n : Ticket) × (a ≡ answer n)
      × (bounds_at before n others (index_of_path n.path others) ≡ answer x)
bounds_of_row-found before subject others (failure f) h = absurd cc
bounds_of_row-found before subject others (answer n) h =
    elim (Bool-cases (bytes_eq n.path subject.path)) [
      | inl e ↦ absurd (let x = rw e at h in cc)
      | inr e ↦ elim (Bool-cases (n.parse_error || not (valid n.order_key))) [
        | inl f ↦ absurd (let x = rw (e, f) at h in cc)
        | inr f ↦ (n, refl, rw (e, f) at h)
      ]
    ]

key_of_bounds-ok :
    (a : Answer (Bytes × Bytes)) {k : Bytes}
    → key_of_bounds a ≡ answer k
    → (l r : Bytes) × (a ≡ answer (l, r)) × (key_between l r ≡ ok k)
key_of_bounds-ok (failure f) h = absurd cc
key_of_bounds-ok (answer (l, r)) {k} h = go (key_between l r) refl h
  where
    go :
        (x : Result Bytes)
        → key_between l r ≡ x
        → ◌≡◌ {A = Answer Bytes}
            (elim x [ err e ↦ failure no_legal_order | ok j ↦ answer j ])
            (answer k)
        → (l' r' : Bytes) × (◌≡◌ {A = Answer (Bytes × Bytes)} (answer (l, r)) (answer (l', r')))
          × (key_between l' r' ≡ ok k)
    go (err e) q w = absurd cc
    go (ok j) q w = let same : j ≡ k = cc in (l, r, refl, q ∙ ap ok same)

module _ (rows_of : Bool → Bytes → List Ticket) where
  abbrev pub found_path : Lookup → Bytes
  found_path l = head_path (rows_of l.by_full (query_of l))

  -- Whether the two sides are those that a destination asks for.
  abbrev pub asked : Dest → List Ticket → List Ticket → Bool
  asked dest below above =
      if dest.first
      then is_none below
      else if dest.last
      then is_none above
      else if is_set dest.before
      then starts_at (found_path dest.before) above
      else ends_at (found_path dest.after) below

  -- The rows that the index gives for one path have one order key.
  abbrev pub Agrees : List Ticket → Type 0
  Agrees rows =
      (full : Bool) (arg : Bytes) (r t : Ticket)
      → In r (rows_of full arg)
      → In t rows
      → t.path ≡ r.path
      → t.order_key ≡ r.order_key

  neighbour_bounds-IsPlace :
      (subject : Ticket) (others : List Ticket) (nb : Lookup) (before : Bool) {l r k : Bytes}
      → IsSorted ticket_before others
      → ((q : Ticket) → In q others → valid q.order_key ≡ true)
      → Agrees others
      → neighbour_bounds rows_of subject others nb before ≡ answer (l, r)
      → key_between l r ≡ ok k
      → (below above : List Ticket) × IsPlace others below above k
        × (beside before (found_path nb) below above ≡ true)
  unfolding neighbour_bounds
  neighbour_bounds-IsPlace subject others nb before s v agree h key =
      let (n, found, bounds) = bounds_of_row-found before subject others _ h in
      let one = resolve_row-one (rows_of nb.by_full (query_of nb)) found in
      let there : In n (rows_of nb.by_full (query_of nb)) = rw one (inl refl) in
      let (below, above, p, at) =
        neighbour_placed before n others s v (λ q i e. agree nb.by_full (query_of nb) n q there i e)
          bounds key in
      (below, above, p, rw one at)

  order_bounds-IsPlace :
      (subject : Ticket) (rows : List Ticket) (dest : Dest) {l r k : Bytes}
      → Agrees rows
      → order_bounds rows_of subject rows dest ≡ answer (l, r)
      → key_between l r ≡ ok k
      → (below above : List Ticket) × IsPlace
          (sort_tickets (others_of subject rows) false)
          below
          above
          k
        × (asked dest below above ≡ true)
  unfolding order_bounds sort_tickets last_key
  order_bounds-IsPlace subject rows dest {l} {r} {k} agree h key =
      let others : List Ticket = sort_by ticket_before (others_of subject rows) in
      let s = sort_by-IsSorted ticket_before ticket_before-IsOrder (others_of subject rows) in
      let back = λ (q : Ticket) (i : In q others).
        others_of-In subject rows q ((sort_by-In ticket_before q (others_of subject rows)).0 i) in
      let v = λ (q : Ticket) (i : In q others). (back q i).0 in
      let agree' =
        λ (full : Bool) (arg : Bytes) (n t : Ticket) (i : In n (rows_of full arg))
            (j : In t others).
          agree full arg n t i (back t j).1 in
      elim (Bool-cases dest.first) [
        | inl e ↦
            let x = rw e at h in
            let l_is : l ≡ [] = cc in
            let r_is : r ≡ first_key others = cc in
            ([], others, placed others [] others s v refl (rw (← l_is, ← r_is) key), rw e refl)
        | inr e ↦ elim (Bool-cases dest.last) [
          | inl f ↦
              let x = rw (e, f) at h in
              let l_is : l ≡ last_key others = cc in
              let r_is : r ≡ [] = cc in
              (
                others,
                [],
                placed others others [] s v (sym (append-nil others)) (rw (← l_is, ← r_is) key),
                rw (e, f) refl,
              )
          | inr f ↦ elim (Bool-cases (is_set dest.before)) [
            | inl g ↦
                let (below, above, p, at) =
                  neighbour_bounds-IsPlace subject others dest.before true s v agree'
                    (rw (e, f, g) at h) key in
                (below, above, p, rw (e, f, g) at)
            | inr g ↦
                let (below, above, p, at) =
                  neighbour_bounds-IsPlace subject others dest.after false s v agree'
                    (rw (e, f, g) at h) key in
                (below, above, p, rw (e, f, g) at)
          ]
        ]
      ]

  -- A placement that succeeds names one ticket and lands it where it was asked to: the other tickets of
  -- the scope that are not quarantined and have a valid key, in their order, are those below the new key and
  -- then those above it, and the destination stands at the seam. The hypothesis is that the index has one
  -- order key for one path.
  pub order-IsPlace :
      (session : Session) (rows : List Ticket) (subject : Lookup) (dest : Dest) {k : Bytes}
      → Agrees rows
      → order rows_of session rows subject dest ≡ answer k
      → (s : Ticket) × (rows_of subject.by_full (query_of subject) ≡ s ∷ [])
        × ((below above : List Ticket) × IsPlace
              (sort_tickets (others_of s rows) false)
              below
              above
              k
            × (asked dest below above ≡ true))
  unfolding order
  order-IsPlace session rows subject dest {k} agree h = elim (Bool-cases (count dest == 1)) [
    | inr e ↦ absurd (let x = rw e at h in cc)
    | inl e ↦ elim (Option-cases (start_write session)) [
      | inr (bad, f) ↦ absurd (let x = rw (e, f, order) at h in cc)
      | inl f ↦ go (resolve_write_row found) refl (rw (e, f, order) at h)
    ]
  ]
    where
      found : List Ticket
      found = rows_of subject.by_full (query_of subject)

      go :
          (a : Answer Ticket)
          → resolve_write_row found ≡ a
          → key_of_subject rows_of rows dest a ≡ answer k
          → (s : Ticket) × (found ≡ s ∷ [])
            × ((below above : List Ticket) × IsPlace
                  (sort_tickets (others_of s rows) false)
                  below
                  above
                  k
                × (asked dest below above ≡ true))
      go (failure f) q w = absurd cc
      go (answer s) q w =
          let (l, r, b, key) = key_of_bounds-ok (order_bounds rows_of s rows dest) w in
          (s, resolve_write_row-one found q, order_bounds-IsPlace s rows dest agree b key)
