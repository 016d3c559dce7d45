-- ===== src/Depgate.antt =====
-- internal/depgate/depgate.go: the depends gate and the choice of the next ticket.
-- The order of tickets is that of internal/index/board.go, the lines are internal/token/token.go's `Line`.
-- The gate is what `Load` reads from the index; the schema of a scope that it has not cached comes from
-- the parameter `schema_or_nil`.
mod Waiting
pub mod Next
mod Examples
use tk.Prelude.{
  ℕ, ◌+◌, Bool, true, false, ◌&&◌, ◌||◌, not, Option, none, some, List, [], ◌∷◌, ◌++◌, Bytes, codes,
  bytes_eq, bytes_lt, contains, lookup, has_key, sort_by, if◌then◌else◌, ltb, all, any,
}
use tk.Status.{Customs, is_terminal, is_next_eligible, all_terminal}
use tk.Id.{scope_of_full_id}
use tk.Schema.{Schema}

-- The columns of `index.Ticket` that the gate reads.
pub record Ticket : Type 0 where
  pub path : Bytes
  pub scope : Bytes
  pub id : Bytes
  pub status : Bytes
  pub order_key : Bytes
  pub tags : List Bytes
  pub archived : Bool
  pub parse_error : Bool
  pub schema_error : Bool

unfoldable pub ticket_before : Ticket → Ticket → Bool
ticket_before a b =
    if not (bytes_eq a.order_key b.order_key)
    then bytes_lt a.order_key b.order_key
    else bytes_lt a.id b.id

-- `sortTickets`
unfoldable pub sort_tickets : List Ticket → Bool → List Ticket
unfolding ticket_before
sort_tickets rows reverse =
    sort_by (λ a b. if reverse then ticket_before b a else ticket_before a b) rows

unfoldable pub sort_listing : List Ticket → List Bytes → Customs → List Ticket × Bool
unfolding sort_tickets
sort_listing rows statuses custom =
    let reverse = all_terminal statuses custom in (sort_tickets rows reverse, reverse)

pub record Gate : Type 0 where
  pub by_id : List (Bytes × List Ticket)
  pub depends : List (Bytes × List Bytes)
  pub schemas : List (Bytes × Option Schema)
  pub dup_set : List Bytes

-- A missing key of a map of slices is the empty slice.
unfoldable pub rows_at : {A : Type 0} → Bytes → List (Bytes × List A) → List A
rows_at k m = elim (lookup k m) [ none ↦ [] | some l ↦ l ]

-- `CustomStatuses` of a schema that may be nil.
unfoldable pub custom_statuses : Option Schema → Customs
custom_statuses none = []
custom_statuses (some s) = s.statuses

unfoldable pub token_line : Bytes → Bytes → Bytes
token_line tok msg = tok ++ (codes " " ++ msg)

pub record Eval : Type 0 where
  pub waiting_on : List Bytes
  pub tokens : List Bytes
  pub schema_error : Bool

abbrev pub is_set : List Bytes → Bool
is_set [] = false
is_set (t ∷ ts) = true

unfoldable pub held : Eval → Bool
held e = is_set e.waiting_on || e.schema_error

unfoldable pub schema_token : Ticket → List Bytes
unfolding token_line
schema_token p =
    if p.schema_error
    then token_line (codes "schema_error:")
        (p.id ++ codes ": a depends/related entry is not a legal full ticket id")
      ∷ []
    else []

unfoldable pub missing_token : Ticket → Bytes → Bytes
unfolding token_line
missing_token p target =
    if bytes_eq (scope_of_full_id target) p.scope
    then token_line (codes "depends_dangling:")
        (p.id ++ (codes " depends on " ++ (target ++ codes " which has no ticket in this scope")))
    else token_line (codes "depends_unresolvable:")
        (p.id ++ (codes " depends on " ++ (target ++ codes " which cannot be resolved here")))

unfoldable pub is_duplicate : Gate → Ticket → Bool
is_duplicate g p = contains g.dup_set (p.scope ++ (0 ∷ p.id))

abbrev pub put_wait : Bytes → Eval → Eval
put_wait t e = record e { waiting_on = t ∷ e.waiting_on }

abbrev pub put_missing : Bytes → Bytes → Eval → Eval
put_missing line t e = record e { waiting_on = t ∷ e.waiting_on; tokens = line ∷ e.tokens }

-- What one target adds: no row at all, a row that is not terminal, or nothing.
unfoldable pub put_target : Ticket → Bytes → List Ticket → Bool → Eval → Eval
unfolding missing_token
put_target p target [] done rest = put_missing (missing_token p target) target rest
put_target p target (r ∷ rs) done rest = if not done then put_wait target rest else rest

module _ (schema_or_nil : Bytes → Option Schema) where
  -- `Gate.schema`, whose cache never changes an answer.
  unfoldable pub schema : Gate → Bytes → Option Schema
  schema g scope = elim (lookup scope g.schemas) [ none ↦ schema_or_nil scope | some s ↦ s ]

  unfoldable pub is_done_row : Gate → Ticket → Bool
  unfolding schema custom_statuses
  is_done_row g r = is_terminal r.status (custom_statuses (schema g r.scope))

  unfoldable pub all_rows_terminal : Gate → List Ticket → Bool
  unfolding is_done_row
  all_rows_terminal g [] = false
  all_rows_terminal g (r ∷ rs) = all (is_done_row g) (r ∷ rs)

  -- The loop of `EvalDepends`, with the targets that were seen.
  unfoldable pub eval_targets : Gate → Ticket → List Bytes → List Bytes → Eval
  unfolding rows_at all_rows_terminal put_target
  eval_targets g p seen [] = record { waiting_on = []; tokens = []; schema_error = p.schema_error }
  eval_targets g p seen (target ∷ ts) =
      let again = eval_targets g p seen ts in
      let rest = eval_targets g p (target ∷ seen) ts in
      if contains seen target
      then again
      else put_target p target (rows_at target g.by_id)
          (all_rows_terminal g (rows_at target g.by_id)) rest

  unfoldable pub eval_depends : Gate → Ticket → Eval
  unfolding eval_targets schema_token
  eval_depends g p =
      let e = eval_targets g p [] (rows_at p.path g.depends) in
      record e { waiting_on = sort_by bytes_lt e.waiting_on; tokens = schema_token p ++ e.tokens }

unfoldable pub next_eligible : Gate → Ticket → Eval → Bool
unfolding is_duplicate held
next_eligible g p e =
    if not (is_next_eligible p.status) || p.archived || p.parse_error
    then false
    else if is_duplicate g p || held e
    then false
    else true

-- `passesLens`
unfoldable pub passes_lens : List Bytes → List Bytes → Bool
passes_lens [] lens = true
passes_lens (t ∷ ts) [] = true
passes_lens (t ∷ ts) (l ∷ ls) = any (contains (l ∷ ls)) (t ∷ ts)

-- `TokenSet.Add`: the order, whose lines are those seen.
unfoldable pub add_lines : List Bytes → List Bytes → List Bytes
add_lines order [] = order
add_lines order (l ∷ ls) =
    if contains order l then add_lines order ls else add_lines (order ++ l ∷ []) ls

pub record Selection : Type 0 where
  pub chosen : Option Ticket
  pub tokens : List Bytes
  pub blocked : ℕ
  pub ready_outside_lens : ℕ
  pub apply_lens : Bool
  pub lens : List Bytes

abbrev pub or_first : Option Ticket → Ticket → Option Ticket
or_first none p = some p
or_first (some q) p = some q

-- One round of the loop of `SelectNext`, with what `EvalDepends` gave.
unfoldable pub select_step : Gate → Ticket → Eval → Selection → Selection
unfolding next_eligible passes_lens add_lines held
select_step g p e s =
    let t = record s { tokens = add_lines s.tokens e.tokens } in
    if not (next_eligible g p e)
    then if held e then record t { blocked = t.blocked + 1 } else t
    else if t.apply_lens && not (passes_lens p.tags t.lens)
    then record t { ready_outside_lens = t.ready_outside_lens + 1 }
    else record t { chosen = or_first t.chosen p }

module _ (schema_or_nil : Bytes → Option Schema) where
  unfoldable pub select_walk : Gate → Selection → List Ticket → Selection
  unfolding select_step
  select_walk g s [] = s
  select_walk g s (p ∷ ps) = select_walk g (select_step g p (eval_depends schema_or_nil g p) s) ps

  unfoldable pub select_next : Gate → List Ticket → List Bytes → Bool → Selection
  unfolding select_walk sort_tickets
  select_next g candidates lens no_lens =
      select_walk g
        (record {
          chosen = none;
          tokens = [];
          blocked = 0;
          ready_outside_lens = 0;
          apply_lens = not no_lens && is_set lens;
          lens = lens;
        })
        (sort_tickets candidates false)

-- The refusal of an empty queue, by the wording that `Error` picks.
pub data Refusal : Type 0 where
  ready_outside : List Bytes → ℕ → Refusal
  waiting_todos : ℕ → Refusal
  nothing_ready : Refusal

unfoldable pub empty_queue : Selection → Refusal
empty_queue s =
    if s.apply_lens && ltb 0 s.ready_outside_lens
    then ready_outside s.lens s.ready_outside_lens
    else if ltb 0 s.blocked
    then waiting_todos s.blocked
    else nothing_ready
