-- ===== src/Mark/Claims.antt =====
-- internal/writeengine/claim.go: a claim only takes tickets that are still todo.
use tk.Prelude.{
  Bool, true, false, Option, none, some, List, [], ◌∷◌, Bytes, ◌≡◌, refl, arith, In, any, contains,
  lookup, bytes_eq_iff, Bool-cases, Option-cases, inl, inr, ◌⊎◌,
}
use tk.Session.{Session, HoldType, refuse_start, refuse_unusable, check_mid_rebase, fails}
use tk.Status.{todo}
use tk.Depgate.{Ticket}
use tk.Schema.{Schema}
use tk.Placement.{Lookup, Answer, answer, failure}
use tk.Mark.{
  File, Files, Prepared, Written, Preflight, prepared, refused, answer_for, keep_prepared,
  preflight_from, preflight_marks, write_prepared_marks,
}
use tk.Mark.Handlers.{wrote, lost, write_claims, claim_marks}

none_at : {A : Type 0} (f : A → Bool) (l : List A) (q : A) → any f l ≡ false → In q l → f q ≡ false
none_at f [] q h i = absurd i
none_at f (x ∷ l) q h (inl e) = rw e (ground arith)
none_at f (x ∷ l) q h (inr i) = none_at f l q (ground arith) i

module _ (rows_of : Bool → Bytes → List Ticket) (fs : Files) where
  kept :
      (p : Prepared) (rest : Preflight) {ps : List Prepared}
      → keep_prepared p rest ≡ prepared ps
      → (qs : List Prepared) × (rest ≡ prepared qs) × (ps ≡ p ∷ qs)
  kept p (prepared qs) h = (qs, refl, cc)
  kept p (refused r) h = absurd cc

  -- One round of the loop: an id that was seen is passed over, and a new one is read.
  preflight_round :
      (seen : List Bytes) (l : Lookup) (ls : List Lookup) {ps : List Prepared}
      → preflight_from rows_of fs seen (l ∷ ls) ≡ prepared ps
      → (preflight_from rows_of fs seen ls ≡ prepared ps)
        ⊎ ((p : Prepared) × (qs : List Prepared) × (lookup p.row.path fs ≡ some p.file)
            × (preflight_from rows_of fs (p.row.id ∷ seen) ls ≡ prepared qs)
            × (ps ≡ p ∷ qs))
  unfolding preflight_from
  preflight_round seen l ls {ps} h = go (answer_for rows_of fs l) refl
    where
      go :
          (a : Answer Ticket)
          → answer_for rows_of fs l ≡ a
          → (preflight_from rows_of fs seen ls ≡ prepared ps)
            ⊎ ((p : Prepared) × (qs : List Prepared) × (lookup p.row.path fs ≡ some p.file)
                × (preflight_from rows_of fs (p.row.id ∷ seen) ls ≡ prepared qs)
                × (ps ≡ p ∷ qs))
      go (failure f) e = absurd (let x = rw (e, preflight_from) at h in cc)
      go (answer t) e = elim (Bool-cases (contains seen t.id)) [
        | inl s ↦ inl (rw (e, s, preflight_from) at h)
        | inr s ↦ elim (Option-cases (lookup t.path fs)) [
          | inl n ↦ absurd (let x = rw (e, s, n, preflight_from) at h in cc)
          | inr (f, n) ↦
              let p : Prepared = record { row = t; file = f } in
              let (qs, rest, whole) =
                kept p (preflight_from rows_of fs (t.id ∷ seen) ls)
                  (rw (e, s, n, preflight_from) at h) in
              inr (p, qs, n, rest, whole)
        ]
      ]

  -- A prepared mark has the file that the store has at its row's path.
  preflight_from-lookup :
      (seen : List Bytes) (ls : List Lookup) {ps : List Prepared}
      → preflight_from rows_of fs seen ls ≡ prepared ps
      → (p : Prepared) → In p ps
      → lookup p.row.path fs ≡ some p.file
  unfolding preflight_from
  preflight_from-lookup seen [] {ps} h p i =
      let x : prepared [] ≡ prepared ps = h in
      let none_left : [] ≡ ps = cc in absurd (let j : In p [] = rw (← none_left) at i in j)
  preflight_from-lookup seen (l ∷ ls) {ps} h p i = elim (preflight_round seen l ls h) [
    | inl rest ↦ preflight_from-lookup seen ls rest p i
    | inr (q, qs, n, rest, whole) ↦
        let j : In p (q ∷ qs) = rw whole at i in
        elim j [
          | inl first ↦ rw first n
          | inr later ↦ preflight_from-lookup (q.row.id ∷ seen) ls rest p later
        ]
  ]

module _ (rows_of : Bool → Bytes → List Ticket) (made : Bool) (now dir : Bytes) (schema : Schema)
    (session : Session) where
  -- A claim that writes was under no hold, and of the tickets that it writes each one that was named as todo, or
  -- every one where todo is required, has the status todo in its file when the claim takes the lock.
  pub claim_marks-todo :
      (require_todo : Bool) (was : List Bytes) (new_status : Bytes) (ls : List Lookup) (fs : Files)
      {w : Written}
      → claim_marks rows_of made now dir schema session require_todo was new_status ls fs ≡ wrote w
      → (session.hold ≡ none)
        × ((ps : List Prepared) × (w ≡ write_prepared_marks made now dir schema new_status ps fs)
            × ((p : Prepared)
                → In p ps
                → (require_todo ≡ true) ⊎ (contains was p.row.id ≡ true)
                → (x : File) × (lookup p.row.path fs ≡ some x) × (x.0.status ≡ todo)))
  unfolding claim_marks refuse_start preflight_marks
  claim_marks-todo require_todo was new_status ls fs {w} h =
      elim (Bool-cases (refuse_start session.hold)) [
        | inl e ↦ absurd (let x = rw (e, claim_marks) at h in cc)
        | inr e ↦ elim (Bool-cases (fails (refuse_unusable session))) [
          | inl g ↦ absurd (let x = rw (e, g, claim_marks) at h in cc)
          | inr g ↦ elim (Bool-cases (fails (check_mid_rebase session))) [
            | inl f ↦ absurd (let x = rw (e, g, f, claim_marks) at h in cc)
            | inr f ↦ (
              no_hold session.hold e,
              go (preflight_from rows_of fs [] ls) refl (rw (e, g, f, claim_marks) at h),
            )
          ]
        ]
      ]
    where
      no_hold : (o : Option HoldType) → refuse_start o ≡ false → o ≡ none
      no_hold none e = refl
      no_hold (some t) e = absurd cc

      go :
          (r : Preflight)
          → preflight_from rows_of fs [] ls ≡ r
          → write_claims rows_of made now dir schema session require_todo was new_status fs r
            ≡ wrote w
          → (ps : List Prepared) × (w ≡ write_prepared_marks made now dir schema new_status ps fs)
            × ((p : Prepared)
                → In p ps
                → (require_todo ≡ true) ⊎ (contains was p.row.id ≡ true)
                → (x : File) × (lookup p.row.path fs ≡ some x) × (x.0.status ≡ todo))
      go (refused r) q x = absurd cc
      go (prepared ps) q x =
          elim (Bool-cases (any (lost rows_of made now dir schema session require_todo was) ps)) [
            | inl g ↦ absurd (let y = rw (g, write_claims) at x in cc)
            | inr g ↦
                let y = rw (g, write_claims) at x in
                (
                  ps,
                  cc,
                  λ p i named. (
                    p.file,
                    preflight_from-lookup rows_of fs [] ls q p i,
                    (bytes_eq_iff p.file.0.status todo).0 (
                        let kept_todo =
                          none_at (lost rows_of made now dir schema session require_todo was) ps p g
                            i in
                        elim named [ inl a ↦ ground arith | inr a ↦ ground arith ]),
                  ),
                )
          ]
