-- ===== src/Depgate/Next.antt =====
-- internal/depgate/depgate.go: which ticket is next.
use tk.Prelude.{
  bytes_lt_gap, all-In, Bool, true, false, ◌&&◌, not, Option, none, some, List, [], ◌∷◌, Bytes, ◌≡◌,
  refl, arith, bytes_eq_iff, bytes_lt_asymm, bytes_lt_total, Bool-cases, inl, inr, sym, sort_by,
  if◌then◌else◌, all, In, IsSorted, IsOrder, sort_by-In, sort_by-IsSorted,
}
use tk.Schema.{Schema}
use tk.Depgate.{
  Ticket, ticket_before, sort_tickets, Gate, Eval, eval_depends, next_eligible, passes_lens,
  Selection, or_first, is_set, select_step, select_walk, select_next, held,
}

-- The order key and then the id order the tickets.
pub ticket_before-IsOrder : IsOrder ticket_before
unfolding ticket_before
ticket_before-IsOrder = record {
  asymm = λ a b h. ground (
    arith,
    bytes_lt_asymm a.order_key b.order_key,
    bytes_lt_asymm a.id b.id,
    bytes_eq_iff a.order_key b.order_key,
    bytes_eq_iff b.order_key a.order_key,
  );
  gap = λ a b c h k. ground (
    arith,
    bytes_lt_gap a.order_key b.order_key c.order_key,
    bytes_lt_gap a.id b.id c.id,
    bytes_eq_iff a.order_key b.order_key,
    bytes_eq_iff b.order_key c.order_key,
    bytes_eq_iff a.order_key c.order_key,
    bytes_lt_total a.order_key b.order_key,
    bytes_lt_total b.order_key c.order_key,
    bytes_lt_total a.order_key c.order_key,
    bytes_lt_asymm a.order_key b.order_key,
    bytes_lt_asymm b.order_key c.order_key,
    bytes_lt_asymm a.order_key c.order_key,
  );
}

-- The first element that passes a test.
abbrev first_ready : (Ticket → Bool) → List Ticket → Option Ticket
first_ready f [] = none
first_ready f (p ∷ ps) = if f p then some p else first_ready f ps

-- A choice among tickets by a test: one that passes and that none that passes precedes, or none where
-- none passes.
abbrev pub IsChoice : (Ticket → Bool) → List Ticket → Option Ticket → Type 0
IsChoice f l none = all (λ q. not (f q)) l ≡ true
IsChoice f l (some p) = (f p ≡ true) × In p l × (all (λ q. not (f q && ticket_before q p)) l ≡ true)

abbrev Least : (Ticket → Bool) → List Ticket → Option Ticket → Type 0
Least f l none = (q : Ticket) → In q l → f q ≡ false
Least f l (some p) =
    (f p ≡ true) × In p l × ((q : Ticket) → In q l → f q ≡ true → ticket_before q p ≡ false)

first_ready-Least :
    (f : Ticket → Bool) (l : List Ticket) → IsSorted ticket_before l → Least f l (first_ready f l)
first_ready-Least f [] s = λ q i. absurd i
first_ready-Least f (p ∷ ps) (least, s) = elim (Bool-cases (f p)) [
  | inl e ↦ rw e (
    e,
    inl refl,
    λ q i h. elim i [
      | inl same ↦ rw same (elim (Bool-cases (ticket_before p p)) [
        | inr k ↦ k
        | inl k ↦ ticket_before-IsOrder.asymm p p k
      ])
      | inr j ↦ least q j
    ],
  )
  | inr e ↦ rw e (later e (first_ready f ps) (first_ready-Least f ps s))
]
  where
    later : f p ≡ false → (o : Option Ticket) → Least f ps o → Least f (p ∷ ps) o
    later e none none_of = λ q i. elim i [ inl same ↦ rw same e | inr j ↦ none_of q j ]
    later e (some r) (ready, there, first) = (
      ready,
      inr there,
      λ q i h. elim i [
        | inl same ↦ absurd (let h' = rw same at h in ground arith)
        | inr j ↦ first q j h
      ],
    )

abbrev or_else : Option Ticket → Option Ticket → Option Ticket
or_else none o = o
or_else (some p) o = some p

-- A ticket that may be next: eligible, and shown by the lens where the lens applies.
abbrev shown : Gate → Bool → List Bytes → Ticket → Eval → Bool
shown g apply lens p e = next_eligible g p e && not (apply && not (passes_lens p.tags lens))

select_step-chosen :
    (g : Gate) (p : Ticket) (e : Eval) (s : Selection)
    → ((select_step g p e s).chosen
        ≡ (if shown g s.apply_lens s.lens p e then or_first s.chosen p else s.chosen))
      × ((select_step g p e s).apply_lens ≡ s.apply_lens)
      × ((select_step g p e s).lens ≡ s.lens)
unfolding select_step
select_step-chosen g p e s = elim (Bool-cases (next_eligible g p e)) [
  | inr n ↦ elim (Bool-cases (held e)) [
    | inl h ↦ rw (n, h) (refl, refl, refl)
    | inr h ↦ rw (n, h) (refl, refl, refl)
  ]
  | inl n ↦ elim (Bool-cases (s.apply_lens && not (passes_lens p.tags s.lens))) [
    | inl h ↦ rw (n, h) (refl, refl, refl)
    | inr h ↦ rw (n, h) (refl, refl, refl)
  ]
]

or_else-none : (o : Option Ticket) → or_else o none ≡ o
or_else-none none = refl
or_else-none (some q) = refl

or_else-first_ready :
    (o : Option Ticket) (f : Ticket → Bool) (p : Ticket) (ps : List Ticket)
    → or_else (if f p then or_first o p else o) (first_ready f ps)
      ≡ or_else o (first_ready f (p ∷ ps))
or_else-first_ready none f p ps = ground arith
or_else-first_ready (some q) f p ps = ground arith

Least-IsChoice :
    (f : Ticket → Bool) (l : List Ticket) (o : Option Ticket)
    → Least f (sort_by ticket_before l) o
    → IsChoice f l o
Least-IsChoice f l none none_of =
    all-In (λ q. not (f q)) l (λ q i. rw (none_of q ((sort_by-In ticket_before q l).1 i)) refl)
Least-IsChoice f l (some p) (ready, there, first) = (
  ready,
  (sort_by-In ticket_before p l).0 there,
  all-In (λ q. not (f q && ticket_before q p)) l
      (λ q i. elim (Bool-cases (f q)) [
        | inr e ↦ rw e refl
        | inl e ↦ rw (e, first q ((sort_by-In ticket_before q l).1 i) e) refl
      ]),
)

module _ (schema_or_nil : Bytes → Option Schema) where
  abbrev pub may_be_next : Gate → Bool → List Bytes → Ticket → Bool
  may_be_next g apply lens p = shown g apply lens p (eval_depends schema_or_nil g p)

  select_walk-chosen :
      (g : Gate) (s : Selection) (ps : List Ticket)
      → (select_walk schema_or_nil g s ps).chosen
        ≡ or_else s.chosen (first_ready (may_be_next g s.apply_lens s.lens) ps)
  unfolding select_walk
  select_walk-chosen g s [] = sym (or_else-none s.chosen)
  select_walk-chosen g s (p ∷ ps) =
      let e : Eval = eval_depends schema_or_nil g p in
      let (c, a, l) = select_step-chosen g p e s in
      rw (select_walk-chosen g (select_step g p e s) ps, c, a, l)
        (or_else-first_ready s.chosen (may_be_next g s.apply_lens s.lens) p ps)

  -- SelectNext chooses among the candidates one that is eligible and that the lens shows, such that none
  -- that is eligible and shown stands before it by order key and id; it chooses none only when none is
  -- eligible and shown.
  pub select_next-IsChoice :
      (g : Gate) (candidates : List Ticket) (lens : List Bytes) (no_lens : Bool)
      → IsChoice
          (may_be_next g (not no_lens && is_set lens) lens)
          candidates
          (select_next schema_or_nil g candidates lens no_lens).chosen
  unfolding select_next sort_tickets
  select_next-IsChoice g candidates lens no_lens =
      let f = may_be_next g (not no_lens && is_set lens) lens in
      let sorted : List Ticket = sort_by ticket_before candidates in
      rw (select_walk-chosen g _ sorted) (
        Least-IsChoice f candidates (first_ready f sorted) (
          first_ready-Least f sorted
            (sort_by-IsSorted ticket_before ticket_before-IsOrder candidates)))
