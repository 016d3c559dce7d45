-- ===== src/Mark/Handlers.antt =====
-- internal/writeengine/mark.go and claim.go: `tk mark`, and the part of a claim that is under the lock.
use tk.Prelude.{
  Bool, true, false, ◌&&◌, ◌||◌, not, List, [], ◌∷◌, Bytes, bytes_eq, contains, any, if◌then◌else◌,
}
use tk.Session.{Session, refuse_start, refuse_unusable, check_mid_rebase, fails}
use tk.Status.{todo, in_progress, is_known}
use tk.Depgate.{Ticket}
use tk.Schema.{Schema}
use tk.Placement.{Lookup}
use tk.Mark.{
  refuse_status_hold, Files, Prepared, Written, Refusal, unusable, unknown_status, held, mid_rebase,
  usage, no_longer_todo, Preflight, prepared, refused, write_prepared_marks, preflight_marks,
}

pub data MarkResult : Type 0 where
  mark_refused : Refusal → MarkResult
  claims : List Bytes → MarkResult
  wrote : Written → MarkResult

abbrev pub was_todo : Prepared → Bool
was_todo p = bytes_eq p.file.0.status todo

-- `wasTodo`, as the ids of the tickets that are todo.
unfoldable pub todo_ids : List Prepared → List Bytes
todo_ids [] = []
todo_ids (p ∷ ps) = if was_todo p then p.row.id ∷ todo_ids ps else todo_ids ps

abbrev pub is_nil : List Lookup → Bool
is_nil [] = true
is_nil (l ∷ ls) = false

module _ (rows_of : Bool → Bytes → List Ticket) (made : Bool) (now dir : Bytes) (schema : Schema)
    (session : Session) where
  abbrev pub write_or_claim : Bytes → Files → Preflight → MarkResult
  write_or_claim new_status fs (refused r) = mark_refused r
  write_or_claim new_status fs (prepared ps) =
      if bytes_eq new_status in_progress && any was_todo ps
      then claims (todo_ids ps)
      else wrote (write_prepared_marks made now dir schema new_status ps fs)

  -- `Mark`; where it goes on as a claim, the ids that were todo.
  unfoldable pub mark : Bytes → List Lookup → Files → MarkResult
  unfolding refuse_unusable check_mid_rebase refuse_status_hold preflight_marks write_prepared_marks
      is_known todo_ids
  mark new_status lookups fs =
      if fails (refuse_unusable session)
      then mark_refused unusable
      else if not (is_known new_status schema.statuses)
      then mark_refused unknown_status
      else if refuse_status_hold new_status session.hold
      then mark_refused held
      else if fails (check_mid_rebase session)
      then mark_refused mid_rebase
      else if is_nil lookups
      then mark_refused usage
      else write_or_claim new_status fs (preflight_marks rows_of fs lookups)

  abbrev pub lost : Bool → List Bytes → Prepared → Bool
  lost require_todo was p = (require_todo || contains was p.row.id) && not (was_todo p)

  abbrev pub write_claims : Bool → List Bytes → Bytes → Files → Preflight → MarkResult
  write_claims require_todo was new_status fs (refused r) = mark_refused r
  write_claims require_todo was new_status fs (prepared ps) =
      if any (lost require_todo was) ps
      then mark_refused no_longer_todo
      else wrote (write_prepared_marks made now dir schema new_status ps fs)

  -- The hold check of `runNetworkClaim` under the lock, and `claimMarksUnderLock`.
  unfoldable pub claim_marks : Bool → List Bytes → Bytes → List Lookup → Files → MarkResult
  unfolding refuse_start refuse_unusable check_mid_rebase preflight_marks write_prepared_marks
  claim_marks require_todo was new_status lookups fs =
      if refuse_start session.hold
      then mark_refused held
      else if fails (refuse_unusable session)
      then mark_refused unusable
      else if fails (check_mid_rebase session)
      then mark_refused mid_rebase
      else write_claims require_todo was new_status fs (preflight_marks rows_of fs lookups)
