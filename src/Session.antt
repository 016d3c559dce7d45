-- ===== src/Session.antt =====
-- internal/writeengine/session.go, internal/scopeconfig/hold.go and internal/gitstate/durability.go: what
-- refuses a write before its handler starts. What the reconcile and git report is a record; the lock is
-- not modelled, nor an error of the reconcile itself.
use tk.Prelude.{Bool, true, false, ◌&&◌, not, Option, none, some, if◌then◌else◌}

pub data HoldType : Type 0 where
  hold_soft hold_hard : HoldType

unfoldable pub refuse_hard : Option HoldType → Bool
refuse_hard none = false
refuse_hard (some hold_soft) = false
refuse_hard (some hold_hard) = true

unfoldable pub refuse_start : Option HoldType → Bool
refuse_start none = false
refuse_start (some h) = true

-- What the refusals read of `Session`: what its reconcile found of the directory and of tk.cue, the hold and the
-- auto-commit of its schema, its git root, and what git reports of that root.
pub record Session : Type 0 where
  pub unreachable : Bool
  pub config_error : Bool
  pub hold : Option HoldType
  pub auto_commit : Bool
  pub has_root : Bool
  pub mid_rebase : Bool
  pub mid_merge : Bool

pub data SessionError : Type 0 where
  unreachable_scope config_unparseable scope_held git_mid_rebase : SessionError

abbrev pub fails : Option SessionError → Bool
fails none = false
fails (some e) = true

-- `RefuseUnusable`; `none` is its success, here and below.
unfoldable pub refuse_unusable : Session → Option SessionError
refuse_unusable s =
    if s.unreachable
    then some unreachable_scope
    else if s.config_error
    then some config_unparseable
    else none

-- `Begin`
unfoldable pub begin_write : Session → Option SessionError
unfolding refuse_unusable refuse_hard
begin_write s = elim (refuse_unusable s) [
  | some e ↦ some e
  | none ↦ if refuse_hard s.hold then some scope_held else none
]

unfoldable pub check_mid_rebase : Session → Option SessionError
check_mid_rebase s =
    if not s.auto_commit
    then none
    else if not s.has_root
    then none
    else if not s.mid_rebase && not s.mid_merge
    then none
    else some git_mid_rebase

-- The start of a handler: `Begin`, then `CheckMidRebase`.
unfoldable pub start_write : Session → Option SessionError
unfolding begin_write check_mid_rebase
start_write s = elim (begin_write s) [ some e ↦ some e | none ↦ check_mid_rebase s ]

abbrev pub open_session : Session
open_session = record {
  unreachable = false;
  config_error = false;
  hold = none;
  auto_commit = true;
  has_root = true;
  mid_rebase = false;
  mid_merge = false;
}
