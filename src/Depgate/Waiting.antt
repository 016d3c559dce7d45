-- ===== src/Depgate/Waiting.antt =====
-- internal/depgate/depgate.go: what a ticket waits on.
use tk.Prelude.{
  Bool, false, ◌&&◌, ◌||◌, not, Option, List, [], ◌∷◌, Bytes, ◌≡◌, refl, arith, bytes_eq,
  bytes_eq_iff, bytes_eq_refl, bytes_lt, contains, contains-sort_by, Bool-cases, inl, inr,
}
use tk.Schema.{Schema}
use tk.Depgate.{
  Ticket, Gate, Eval, rows_at, put_target, eval_targets, eval_depends, all_rows_terminal,
}

contains-put_target :
    (p : Ticket) (target : Bytes) (rows : List Ticket) (done : Bool) (e : Eval) (t : Bytes)
    → (rows ≡ [] → done ≡ false)
    → contains (put_target p target rows done e).waiting_on t
      ≡ (bytes_eq target t && not done || contains e.waiting_on t)
unfolding put_target contains
contains-put_target p target [] done e t h = ground (arith, h refl)
contains-put_target p target (r ∷ rs) done e t h = ground arith

module _ (schema_or_nil : Bytes → Option Schema) where
  no_rows :
      (g : Gate) (rows : List Ticket) → rows ≡ [] → all_rows_terminal schema_or_nil g rows ≡ false
  unfolding all_rows_terminal
  no_rows g [] h = refl
  no_rows g (r ∷ rs) h = absurd (ground arith)

  contains-eval_targets :
      (g : Gate) (p : Ticket) (seen ts : List Bytes) (t : Bytes)
      → contains (eval_targets schema_or_nil g p seen ts).waiting_on t ≡ (
          contains ts t
          && not (contains seen t)
          && not (all_rows_terminal schema_or_nil g (rows_at t g.by_id)))
  unfolding eval_targets contains
  contains-eval_targets g p seen [] t = refl
  contains-eval_targets g p seen (x ∷ ts) t =
      let again = contains-eval_targets g p seen ts t in
      let rest = contains-eval_targets g p (x ∷ seen) ts t in
      let added =
        contains-put_target p x (rows_at x g.by_id)
          (all_rows_terminal schema_or_nil g (rows_at x g.by_id))
          (eval_targets schema_or_nil g p (x ∷ seen) ts) t (no_rows g (rows_at x g.by_id)) in
      elim (Bool-cases (contains seen x)) [
        | inl s ↦ rw s (ground (arith, again, bytes_eq_iff x t))
        | inr s ↦ rw s (ground (arith, rest, added, bytes_eq_iff x t, bytes_eq_refl t))
      ]

  -- A ticket waits exactly on those of its depends that have no ticket, or a ticket that is not terminal
  -- in its own scope.
  pub contains-waiting_on :
      (g : Gate) (p : Ticket) (t : Bytes)
      → contains (eval_depends schema_or_nil g p).waiting_on t ≡ (
          contains (rows_at p.path g.depends) t
          && not (all_rows_terminal schema_or_nil g (rows_at t g.by_id)))
  unfolding eval_depends contains
  contains-waiting_on g p t =
      let targets : List Bytes = rows_at p.path g.depends in
      let found = contains-eval_targets g p [] targets t in
      rw (contains-sort_by bytes_lt (eval_targets schema_or_nil g p [] targets).waiting_on t)
        (ground (arith, found))
