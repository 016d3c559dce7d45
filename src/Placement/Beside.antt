-- ===== src/Placement/Beside.antt =====
-- internal/writeengine/order.go: the place that a key between two neighbours takes in the sorted tickets.
use tk.Prelude.{
  ℕ, ◌+◌, Bool, true, false, not, ◌||◌, some, List, [], ◌∷◌, ◌++◌, Bytes, ◌≡◌, refl, sym, ◌∙◌,
  arith, append_assoc, ◌-◌, bytes_eq, bytes_eq_iff, bytes_lt, Bool-cases, Option-cases, inl, inr,
  length, ltb, In, IsSorted, if◌then◌else◌,
}
use tk.Order.{valid, key_between, ok}
use tk.Order.Between.{Under}
use tk.Order.Accepted.{key_between-ok, valid-nil}
use tk.Depgate.{Ticket, ticket_before}
use tk.Placement.{
  answer, others_of, is_other, first_key, last_key, index_of_path, key_at, bounds_at,
}
use tk.Placement.Slots.{
  all_below, all_above, IsSorted-append, all_below-last_key, all_above-first_key, Slot,
  index_of_path-Slot, key_at-left, key_at-right,
}

Under-lt : (k b : Bytes) → valid b ≡ true → Under k b → bytes_lt k b ≡ true
Under-lt k [] v u = absurd (ground (arith, valid-nil))
Under-lt k (c ∷ cs) v u = u

-- Whether a ticket with a path is the first, or the last, of a list.
abbrev pub starts_at : Bytes → List Ticket → Bool
starts_at path [] = false
starts_at path (p ∷ ps) = bytes_eq p.path path

unfoldable pub ends_at : Bytes → List Ticket → Bool
ends_at path [] = false
ends_at path (p ∷ []) = bytes_eq p.path path
ends_at path (p ∷ q ∷ ps) = ends_at path (q ∷ ps)

ends_at-append :
    (path : Bytes) (pre : List Ticket) (p : Ticket)
    → ends_at path (pre ++ p ∷ []) ≡ bytes_eq p.path path
unfolding ends_at
ends_at-append path [] p = refl
ends_at-append path (q ∷ []) p = refl
ends_at-append path (q ∷ r ∷ pre) p = ends_at-append path (r ∷ pre) p

abbrev pub is_none : List Ticket → Bool
is_none [] = true
is_none (p ∷ ps) = false

-- A place among the sorted tickets: those below the key and those above it.
pub record IsPlace (others below above : List Ticket) (k : Bytes) : Type 0 where
  pub split : others ≡ below ++ above
  pub under : all_below k below ≡ true
  pub over : all_above k above ≡ true

pub others_of-In :
    (subject : Ticket) (rows : List Ticket) (q : Ticket)
    → In q (others_of subject rows)
    → (valid q.order_key ≡ true) × In q rows
unfolding others_of is_other
others_of-In subject [] q i = absurd i
others_of-In subject (p ∷ ps) q i =
    let rest = others_of-In subject ps q in
    elim (Bool-cases (bytes_eq p.path subject.path || p.parse_error || not (valid p.order_key))) [
      | inl e ↦
          let later : In q (others_of subject ps) = rw e at i in
          ((rest later).0, inr (rest later).1)
      | inr e ↦
          let at_front : In q (p ∷ others_of subject ps) = rw e at i in
          elim at_front [
            | inl same ↦ (rw same (ground arith), inl same)
            | inr later ↦ ((rest later).0, inr (rest later).1)
          ]
    ]

-- The key of two bounds that are the ends of the two sides.
pub placed :
    (others below above : List Ticket) {k : Bytes}
    → IsSorted ticket_before others
    → ((q : Ticket) → In q others → valid q.order_key ≡ true)
    → others ≡ below ++ above
    → key_between (last_key below) (first_key above) ≡ ok k
    → IsPlace others below above k
placed others below above {k} s v split h =
    let (good, up, down) = key_between-ok (last_key below) (first_key above) h in
    let s' : IsSorted ticket_before (below ++ above) = rw split at s in
    record {
      split = split;
      under = all_below-last_key below above k s' up;
      over =
          over above (IsSorted-append below above s')
            (λ q i. v q (rw split (in_right below above q i))) down;
    }
  where
    in_right : (xs ys : List Ticket) (q : Ticket) → In q ys → In q (xs ++ ys)
    in_right [] ys q i = i
    in_right (x ∷ xs) ys q i = inr (in_right xs ys q i)

    over :
        (l : List Ticket)
        → IsSorted ticket_before l
        → ((q : Ticket) → In q l → valid q.order_key ≡ true)
        → Under k (first_key l)
        → all_above k l ≡ true
    over [] t w d = refl
    over (p ∷ l) t w d = all_above-first_key (p ∷ l) k t (Under-lt k p.order_key (w p (inl refl)) d)

last_key-append : (pre : List Ticket) (p : Ticket) → last_key (pre ++ p ∷ []) ≡ p.order_key
unfolding last_key
last_key-append [] p = refl
last_key-append (q ∷ []) p = refl
last_key-append (q ∷ r ∷ pre) p = last_key-append (r ∷ pre) p

append-In : (pre : List Ticket) (p : Ticket) (post : List Ticket) → In p (pre ++ p ∷ post)
append-In [] p post = inl refl
append-In (q ∷ pre) p post = inr (append-In pre p post)

abbrev pub head_path : List Ticket → Bytes
head_path [] = []
head_path (p ∷ ps) = p.path

abbrev pub beside : Bool → Bytes → List Ticket → List Ticket → Bool
beside true path below above = starts_at path above
beside false path below above = ends_at path below

-- The place beside a neighbour that was found.
pub neighbour_placed :
    (before : Bool) (n : Ticket) (others : List Ticket) {l r k : Bytes}
    → IsSorted ticket_before others
    → ((q : Ticket) → In q others → valid q.order_key ≡ true)
    → ((q : Ticket) → In q others → q.path ≡ n.path → q.order_key ≡ n.order_key)
    → bounds_at before n others (index_of_path n.path others) ≡ answer (l, r)
    → key_between l r ≡ ok k
    → (below above : List Ticket) × IsPlace others below above k
      × (beside before n.path below above ≡ true)
neighbour_placed before n others {l} {r} {k} s v agree h key =
    elim (Option-cases (index_of_path n.path others)) [
      | inl e ↦ absurd (let x = rw e at h in cc)
      | inr (i, e) ↦ at_slot before i (index_of_path-Slot n.path others e) (rw e at h)
    ]
  where
    at_slot :
        (b : Bool) (i : ℕ)
        → Slot n.path others i
        → bounds_at b n others (some i) ≡ answer (l, r)
        → (below above : List Ticket) × IsPlace others below above k
          × (beside b n.path below above ≡ true)
    at_slot true i slot x =
        let same : slot.row.order_key ≡ n.order_key =
          agree slot.row (rw slot.split (append-In slot.pre slot.row slot.post))
            ((bytes_eq_iff slot.row.path n.path).0 slot.at) in
        let left : (if ltb 0 i then key_at (i - 1) others else []) ≡ last_key slot.pre =
          rw (slot.size, slot.split) (key_at-left slot.pre (slot.row ∷ slot.post)) in
        let l_is : l ≡ last_key slot.pre = cc in
        let r_is : r ≡ slot.row.order_key = cc in
        (
          slot.pre,
          slot.row ∷ slot.post,
          placed others slot.pre (slot.row ∷ slot.post) s v slot.split (rw (← l_is, ← r_is) key),
          slot.at,
        )
    at_slot false i slot x =
        let same : slot.row.order_key ≡ n.order_key =
          agree slot.row (rw slot.split (append-In slot.pre slot.row slot.post))
            ((bytes_eq_iff slot.row.path n.path).0 slot.at) in
        let right : (if ltb i (length others - 1) then key_at (i + 1) others else [])
            ≡ first_key slot.post =
          rw (slot.size, slot.split) (key_at-right slot.pre slot.row slot.post) in
        let l_is : l ≡ last_key (slot.pre ++ slot.row ∷ []) =
          sym (last_key-append slot.pre slot.row ∙ cc) in
        let r_is : r ≡ first_key slot.post = cc in
        let split = slot.split ∙ sym (append_assoc slot.pre (slot.row ∷ []) slot.post) in
        (
          slot.pre ++ slot.row ∷ [],
          slot.post,
          placed others (slot.pre ++ slot.row ∷ []) slot.post s v split (rw (← l_is, ← r_is) key),
          ends_at-append n.path slot.pre slot.row ∙ slot.at,
        )
