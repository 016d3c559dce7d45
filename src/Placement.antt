-- ===== src/Placement.antt =====
-- internal/writeengine/order.go, and the row lookup of internal/writeengine/session.go: where a ticket is
-- put in its scope's order. The parameter `rows_of` is the lookup of rows in the index.
mod Slots
mod Beside
mod Lands
mod Appended
mod Examples
use tk.Prelude.{
  ℕ, zero, suc, ◌+◌, ◌-◌, Bool, true, false, ◌||◌, not, Option, none, some, List, [], ◌∷◌, Bytes,
  bytes_eq, bytes_lt, length, ltb, ◌==◌, if◌then◌else◌,
}
use tk.Order.{valid, key_between, Result, ok, err}
use tk.Session.{Session, SessionError, start_write}
use tk.Depgate.{Ticket, sort_tickets}

pub record Lookup : Type 0 where
  pub arg : Bytes
  pub query : Bytes
  pub by_full : Bool

unfoldable pub query_of : Lookup → Bytes
query_of l = if bytes_eq l.query [] then l.arg else l.query

-- `Dest`, an unset neighbour being one whose `arg` is empty.
pub record Dest : Type 0 where
  pub first : Bool
  pub last : Bool
  pub before : Lookup
  pub after : Lookup

abbrev pub is_set : Lookup → Bool
is_set l = not (bytes_eq l.arg [])

abbrev pub one_if : Bool → ℕ
one_if true = 1
one_if false = 0

unfoldable pub count : Dest → ℕ
count d = one_if d.first + (one_if d.last + (one_if (is_set d.before) + one_if (is_set d.after)))

-- The errors of a placement, by their Go types.
pub data Failure : Type 0 where
  usage unknown_ticket duplicate quarantined neighbour_order not_found no_legal_order : Failure
  of_session : SessionError → Failure

pub data Answer (A : Type 0) : Type 0 where
  answer : A → Answer A
  failure : Failure → Answer A

-- `ResolveRow`, of the rows that the index has.
unfoldable pub resolve_row : List Ticket → Answer Ticket
resolve_row [] = failure unknown_ticket
resolve_row (p ∷ []) = answer p
resolve_row (p ∷ q ∷ ps) = failure duplicate

abbrev pub refuse_quarantined : Answer Ticket → Answer Ticket
refuse_quarantined (failure f) = failure f
refuse_quarantined (answer p) = if p.parse_error then failure quarantined else answer p

unfoldable pub resolve_write_row : List Ticket → Answer Ticket
unfolding resolve_row
resolve_write_row rows = refuse_quarantined (resolve_row rows)

-- The loop of `orderBounds`.
unfoldable pub is_other : Ticket → Ticket → Bool
is_other subject p = not (bytes_eq p.path subject.path || p.parse_error || not (valid p.order_key))

unfoldable pub others_of : Ticket → List Ticket → List Ticket
unfolding is_other
others_of subject [] = []
others_of subject (p ∷ ps) =
    if is_other subject p then p ∷ others_of subject ps else others_of subject ps

abbrev pub first_key : List Ticket → Bytes
first_key [] = []
first_key (p ∷ ps) = p.order_key

unfoldable pub last_key : List Ticket → Bytes
last_key [] = []
last_key (p ∷ []) = p.order_key
last_key (p ∷ q ∷ ps) = last_key (q ∷ ps)

-- The key at an index, empty past the end.
unfoldable pub key_at : ℕ → List Ticket → Bytes
key_at i [] = []
key_at zero (p ∷ ps) = p.order_key
key_at (suc i) (p ∷ ps) = key_at i ps

abbrev pub next_index : Option ℕ → Option ℕ
next_index none = none
next_index (some i) = some (suc i)

-- The loop that looks for the neighbour's path.
unfoldable pub index_of_path : Bytes → List Ticket → Option ℕ
index_of_path path [] = none
index_of_path path (p ∷ ps) =
    if bytes_eq p.path path then some 0 else next_index (index_of_path path ps)

abbrev pub bounds_at : Bool → Ticket → List Ticket → Option ℕ → Answer (Bytes × Bytes)
bounds_at before n others none = failure not_found
bounds_at true n others (some i) =
    answer (if ltb 0 i then key_at (i - 1) others else [], n.order_key)
bounds_at false n others (some i) =
    answer (n.order_key, if ltb i (length others - 1) then key_at (i + 1) others else [])

abbrev pub bounds_of_row : Bool → Ticket → List Ticket → Answer Ticket → Answer (Bytes × Bytes)
bounds_of_row before subject others (failure f) = failure f
bounds_of_row before subject others (answer n) =
    if bytes_eq n.path subject.path
    then failure usage
    else if n.parse_error || not (valid n.order_key)
    then failure neighbour_order
    else bounds_at before n others (index_of_path n.path others)

abbrev pub key_of_bounds : Answer (Bytes × Bytes) → Answer Bytes
key_of_bounds (failure f) = failure f
key_of_bounds (answer (left, right)) = elim (key_between left right) [
  | err e ↦ failure no_legal_order
  | ok k ↦ answer k
]

module _ (rows_of : Bool → Bytes → List Ticket) where
  unfoldable pub neighbour_bounds : Ticket → List Ticket → Lookup → Bool → Answer (Bytes × Bytes)
  unfolding resolve_row query_of index_of_path key_at
  neighbour_bounds subject others neighbour before =
      bounds_of_row before subject others
        (resolve_row (rows_of neighbour.by_full (query_of neighbour)))

  unfoldable pub order_bounds : Ticket → List Ticket → Dest → Answer (Bytes × Bytes)
  unfolding others_of sort_tickets last_key neighbour_bounds
  order_bounds subject rows dest =
      let others = sort_tickets (others_of subject rows) false in
      if dest.first
      then answer ([], first_key others)
      else if dest.last
      then answer (last_key others, [])
      else if is_set dest.before
      then neighbour_bounds subject others dest.before true
      else neighbour_bounds subject others dest.after false

  abbrev pub key_of_subject : List Ticket → Dest → Answer Ticket → Answer Bytes
  key_of_subject rows dest (failure f) = failure f
  key_of_subject rows dest (answer subject) = key_of_bounds (order_bounds subject rows dest)

  -- The key that `Order` writes into the subject's file; `rows` are the tickets of the scope.
  unfoldable pub order : Session → List Ticket → Lookup → Dest → Answer Bytes
  unfolding order_bounds count resolve_write_row query_of start_write
  order session rows subject dest =
      if not (count dest == 1) then failure usage else elim (start_write session) [
        | some e ↦ failure (of_session e)
        | none ↦
            key_of_subject rows dest
              (resolve_write_row (rows_of subject.by_full (query_of subject)))
      ]

-- The loop of `MaxValidOrder`, with the best so far.
unfoldable pub max_valid_from : Bytes → List Ticket → Bytes
max_valid_from best [] = best
max_valid_from best (p ∷ ps) =
    if p.parse_error || not (valid p.order_key)
    then max_valid_from best ps
    else if bytes_eq best [] || bytes_lt best p.order_key
    then max_valid_from p.order_key ps
    else max_valid_from best ps

unfoldable pub max_valid_order : List Ticket → Bytes
unfolding max_valid_from
max_valid_order rows = max_valid_from [] rows
