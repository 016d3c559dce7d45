-- ===== src/Placement/Examples.antt =====
-- Runs of internal/writeengine/order.go on a board of two tickets.
use tk.Prelude.{
  Bool, true, false, not, ◌||◌, List, [], ◌∷◌, Bytes, codes, ◌≡◌, ◌≢◌, refl, sym, ap, ◌∙◌, inl, inr,
  all, bytes_eq, bytes_lt, sort_by,
}
use tk.Order.{
  valid, key_between, ok, smallest_integer, digit_index, index_of, digits_alphabet, integer_length,
  int_digit_index, int_digits_alphabet, length_of_index, ends_in_zero, increment_integer,
  integer_part, widen_up, increment_digits, add_carry, digit_value, digit,
}
use tk.Depgate.{Ticket, sort_tickets}
use tk.Session.{open_session}
use tk.Status.{todo}
use tk.Placement.{Lookup, Dest, answer, order, others_of, query_of, max_valid_order}
use tk.Placement.Beside.{IsPlace}
use tk.Placement.Lands.{Agrees, asked, order-IsPlace}
use tk.Placement.Appended.{max_valid_order-last, counts}

abbrev ticket : Bytes → Bytes → Ticket
ticket id key = record {
  path = id;
  scope = codes "tk";
  id = id;
  status = todo;
  order_key = key;
  tags = [];
  archived = false;
  parse_error = false;
  schema_error = false;
}

abbrev one : Ticket
one = ticket (codes "tk-aaaa") (codes "a1")

abbrev two : Ticket
two = ticket (codes "tk-bbbb") (codes "a2")

abbrev board : List Ticket
board = two ∷ one ∷ []

-- An index with one row by full id, and another by short id.
abbrev rows_of : Bool → Bytes → List Ticket
rows_of true arg = one ∷ []
rows_of false arg = two ∷ []

abbrev by_full : Lookup
by_full = record { arg = codes "tk-aaaa"; query = []; by_full = true }

abbrev by_short : Lookup
by_short = record { arg = codes "bbbb"; query = []; by_full = false }

abbrev unset : Lookup
unset = record { arg = []; query = []; by_full = false }

abbrev after_two : Dest
after_two = record { first = false; last = false; before = unset; after = by_short }

paths_differ : codes "tk-aaaa" ≢ codes "tk-bbbb"
unfolding bytes_eq
paths_differ h = absurd (let p : true ≡ false = ap (bytes_eq (codes "tk-aaaa")) h in cc)

agrees : Agrees rows_of board
agrees true arg r t (inr i) _ h = absurd i
agrees false arg r t (inr i) _ h = absurd i
agrees true arg r t (inl e) (inr (inr i)) h = absurd i
agrees false arg r t (inl e) (inr (inr i)) h = absurd i
agrees true arg r t (inl e) (inl f) h =
    absurd
      (paths_differ (ap (λ (q : Ticket). q.path) (sym e) ∙ sym h ∙ ap (λ (q : Ticket). q.path) f))
agrees true arg r t (inl e) (inr (inl f)) h = ap (λ (q : Ticket). q.order_key) (f ∙ sym e)
agrees false arg r t (inl e) (inl f) h = ap (λ (q : Ticket). q.order_key) (f ∙ sym e)
agrees false arg r t (inl e) (inr (inl f)) h =
    absurd (paths_differ (ap (λ (q : Ticket). q.path) (sym f) ∙ h ∙ ap (λ (q : Ticket). q.path) e))

lands_after : order rows_of open_session board by_full after_two ≡ answer (codes "a3")
unfolding order bytes_eq bytes_lt key_between valid sort_by digit_index index_of digits_alphabet
    integer_length int_digit_index int_digits_alphabet length_of_index ends_in_zero smallest_integer
    increment_integer integer_part widen_up increment_digits add_carry digit_value digit
lands_after = refl

order-IsPlace_example :
    (s : Ticket) × (rows_of true (query_of by_full) ≡ s ∷ [])
    × ((below above : List Ticket) × IsPlace
          (sort_tickets (others_of s board) false)
          below
          above
          (codes "a3")
        × (asked rows_of after_two below above ≡ true))
order-IsPlace_example =
    order-IsPlace rows_of open_session board by_full after_two agrees lands_after

not_smallest : max_valid_order board ≢ smallest_integer
unfolding max_valid_order bytes_eq bytes_lt smallest_integer valid digit_index index_of
    digits_alphabet integer_length int_digit_index int_digits_alphabet length_of_index ends_in_zero
not_smallest h = absurd (let p : true ≡ false = ap (bytes_eq (codes "a2")) h in cc)

max_valid_order-last_example :
    (k : Bytes) × (key_between (max_valid_order board) [] ≡ ok k)
    × (valid k ≡ true)
    × (all (λ p. not (counts p) || bytes_lt p.order_key k) board ≡ true)
max_valid_order-last_example = max_valid_order-last board not_smallest
