-- ===== src/Depgate/Examples.antt =====
-- Runs of internal/depgate/depgate.go on a small board.
use tk.Prelude.{
  false, ◌&&◌, not, Option, none, some, [], ◌∷◌, Bytes, codes, ◌≡◌, refl, contains, bytes_eq,
  lookup, sort_by, bytes_lt,
}
use tk.Status.{todo, done, is_next_eligible, is_terminal}
use tk.Schema.{Schema}
use tk.Depgate.{Ticket, Gate, rows_at, all_rows_terminal, eval_depends, select_next, is_set}
use tk.Depgate.Waiting.{contains-waiting_on}
use tk.Depgate.Next.{IsChoice, may_be_next, select_next-IsChoice}

abbrev no_schema : Bytes → Option Schema
no_schema scope = none

abbrev ticket : Bytes → Bytes → Bytes → Ticket
ticket id status order = record {
  path = id;
  scope = codes "tk";
  id = id;
  status = status;
  order_key = order;
  tags = [];
  archived = false;
  parse_error = false;
  schema_error = false;
}

abbrev first : Ticket
first = ticket (codes "tk-abcd") todo (codes "a1")

abbrev second : Ticket
second = ticket (codes "tk-efgh") todo (codes "a2")

abbrev closed : Ticket
closed = ticket (codes "tk-jkmn") done (codes "a0")

-- The first ticket waits on the second, and the second on one that is done.
abbrev board : Gate
board = record {
  by_id = (first.id, first ∷ []) ∷ (second.id, second ∷ []) ∷ (closed.id, closed ∷ []) ∷ [];
  depends = (first.path, second.id ∷ closed.id ∷ []) ∷ (second.path, closed.id ∷ []) ∷ [];
  schemas = [];
  dup_set = [];
}

contains-waiting_on_example : contains (eval_depends no_schema board first).waiting_on second.id ≡ (
    contains (rows_at first.path board.depends) second.id
    && not (all_rows_terminal no_schema board (rows_at second.id board.by_id)))
contains-waiting_on_example = contains-waiting_on no_schema board first second.id

select_next-IsChoice_example :
    IsChoice
      (may_be_next no_schema board (not false && is_set (codes "ui" ∷ [])) (codes "ui" ∷ []))
      (second ∷ first ∷ [])
      (select_next no_schema board (second ∷ first ∷ []) (codes "ui" ∷ []) false).chosen
select_next-IsChoice_example =
    select_next-IsChoice no_schema board (second ∷ first ∷ []) (codes "ui" ∷ []) false

second_is_next_test :
    (select_next no_schema board (second ∷ first ∷ []) [] false).chosen ≡ some second
unfolding select_next eval_depends bytes_eq lookup sort_by bytes_lt is_next_eligible contains
    is_terminal
second_is_next_test = refl
