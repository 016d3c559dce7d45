-- ===== src/Rewrite/Again.antt =====
-- internal/rewrite/rewrite.go: an op that was cut short by a crash is finished by running it again.
use tk.Prelude.{
  ℕ, zero, suc, true, false, ◌&&◌, not, Option, none, some, List, [], ◌∷◌, take, Bytes, ◌≡◌, refl,
  sym, ◌∙◌, arith, ap, bytes_eq, bytes_eq_iff, Bool-cases, inl, inr,
}
use tk.Rewrite.{
  Store, Op, put, is_move, gone, already_done, holds_same, free_destination, Step, write_file,
  remove_file, take_step, take_steps, steps_of,
}

put_at : (p : Bytes) (o : Option Bytes) (s : Store) → put p o s p ≡ o
put_at p o s = rw ((bytes_eq_iff p p).1 refl) refl

put_other : (p q : Bytes) (o : Option Bytes) (s : Store) → bytes_eq q p ≡ false → put p o s q ≡ s q
put_other p q o s h = rw h refl

put_twice :
    (p : Bytes) (o : Option Bytes) (s : Store) (q : Bytes) → put p o (put p o s) q ≡ put p o s q
put_twice p o s q = elim (Bool-cases (bytes_eq q p)) [ inl e ↦ rw e refl | inr e ↦ rw e refl ]

put_over :
    (p : Bytes) (a : Option Bytes) (s t : Store) (q : Bytes) → s q ≡ t q → put p a s q ≡ put p a t q
put_over p a s t q h = elim (Bool-cases (bytes_eq q p)) [ inl e ↦ rw e refl | inr e ↦ rw e h ]

put_same : (p : Bytes) (o : Option Bytes) (s : Store) (q : Bytes) → s p ≡ o → s q ≡ put p o s q
put_same p o s q h = elim (Bool-cases (bytes_eq q p)) [
  | inl e ↦ let same : q ≡ p = (bytes_eq_iff q p).0 e in rw e (ap s same ∙ h)
  | inr e ↦ rw e refl
]

gone-none : (o : Option Bytes) → gone o ≡ true → o ≡ none
gone-none none h = refl
gone-none (some c) h = absurd cc

-- Running an op again from a store ends where the first run of it ended.
abbrev pub Finishes : Op → Store → Store → Type 0
Finishes op s final =
    (ts : List Step) × (steps_of op s ≡ some ts) × ((q : Bytes) → take_steps ts s q ≡ final q)

abbrev pub first_step : Op → Step
first_step op = write_file op.new_path op.content

abbrev pub after_write : Op → Store → Store
after_write op s = put op.new_path (some op.content) s

abbrev pub after_move : Op → Store → Store
after_move op s = put op.old_path none (after_write op s)

is_move-differ : (op : Op) → is_move op ≡ true → bytes_eq op.old_path op.new_path ≡ false
unfolding is_move
is_move-differ op h = ground arith

finish_write :
    (op : Op) (s : Store) → is_move op ≡ false → Finishes op (after_write op s) (after_write op s)
unfolding steps_of free_destination take_steps take_step
finish_write op s still =
    let free : holds_same (after_write op s op.new_path) op.content ≡ true =
      rw (put_at op.new_path (some op.content) s) ((bytes_eq_iff op.content op.content).1 refl) in
    (
      first_step op ∷ [],
      elim (Bool-cases (bytes_eq op.old_path op.new_path)) [
        | inl e ↦ rw (steps_of, still, e) refl
        | inr e ↦ rw (steps_of, still, e, free_destination, free) refl
      ],
      put_twice op.new_path (some op.content) s,
    )

finish_move :
    (op : Op) (s : Store) → is_move op ≡ true → Finishes op (after_move op s) (after_move op s)
unfolding steps_of already_done take_steps
finish_move op s moves =
    let far = is_move-differ op moves in
    let near : bytes_eq op.new_path op.old_path ≡ false =
      elim (Bool-cases (bytes_eq op.new_path op.old_path)) [
        | inr e ↦ e
        | inl e ↦ absurd (
            let back =
              (bytes_eq_iff op.old_path op.new_path).1
                (sym ((bytes_eq_iff op.new_path op.old_path).0 e)) in
            cc)
      ] in
    let old_gone : after_move op s op.old_path ≡ none =
      put_at op.old_path none (after_write op s) in
    let new_there : after_move op s op.new_path ≡ some op.content =
      put_other op.old_path op.new_path none (after_write op s) near
      ∙ put_at op.new_path (some op.content) s in
    let done_before : already_done op (after_move op s) ≡ true =
      rw (already_done, old_gone, new_there) refl in
    ([], rw (steps_of, moves, done_before) refl, λ q. refl)

finish_between :
    (op : Op) (s : Store) → is_move op ≡ true → Finishes op (after_write op s) (after_move op s)
unfolding steps_of already_done free_destination take_steps take_step
finish_between op s moves =
    let far = is_move-differ op moves in
    let new_there : after_write op s op.new_path ≡ some op.content =
      put_at op.new_path (some op.content) s in
    elim (Bool-cases (gone (after_write op s op.old_path))) [
      | inl e ↦
          let done_before : already_done op (after_write op s) ≡ true =
            rw (already_done, e, new_there) refl in
          (
            [],
            rw (steps_of, moves, done_before) refl,
            λ q.
                put_same op.old_path none (after_write op s) q
                  (gone-none (after_write op s op.old_path) e),
          )
      | inr e ↦
          let not_done : already_done op (after_write op s) ≡ false = rw (already_done, e) refl in
          let free : free_destination op (after_write op s) ≡ true =
            rw (free_destination, new_there) ((bytes_eq_iff op.content op.content).1 refl) in
          (
            first_step op ∷ remove_file op.old_path ∷ [],
            rw (steps_of, moves, not_done, far, free) refl,
            λ q.
                put_over op.old_path none (after_write op (after_write op s)) (after_write op s) q
                  (put_twice op.new_path (some op.content) s q),
          )
    ]

-- What an op that is not refused does: nothing, a write, or a write and a removal.
data Course (op : Op) (s : Store) (ts : List Step) : Type 0 where
  nothing : ts ≡ [] → Course op s ts
  writes : is_move op ≡ false → ts ≡ first_step op ∷ [] → Course op s ts
  moves : is_move op ≡ true → ts ≡ first_step op ∷ remove_file op.old_path ∷ [] → Course op s ts

course : (op : Op) (s : Store) (ts : List Step) → steps_of op s ≡ some ts → Course op s ts
unfolding steps_of
course op s ts h = elim (Bool-cases (is_move op && already_done op s)) [
  | inl e ↦ nothing (let x = rw (e, steps_of) at h in cc)
  | inr e ↦
      elim (Bool-cases (not (bytes_eq op.old_path op.new_path) && not (free_destination op s))) [
        | inl f ↦ absurd (let x = rw (e, f, steps_of) at h in cc)
        | inr f ↦ elim (Bool-cases (is_move op)) [
          | inl g ↦ moves g (let x = rw (e, f, g, steps_of) at h in cc)
          | inr g ↦ writes g (let x = rw (e, f, g, steps_of) at h in cc)
        ]
      ]
]

-- An op that is not refused can be cut short after any of its steps: running it again is not refused, and ends
-- with every file as the op would have left it.
pub steps_of-again :
    (op : Op) (s : Store) (ts : List Step) (n : ℕ)
    → steps_of op s ≡ some ts
    → Finishes op (take_steps (take n ts) s) (take_steps ts s)
unfolding take_steps take_step
steps_of-again op s ts zero h = (ts, h, λ q. refl)
steps_of-again op s ts (suc n) h = elim (course op s ts h) [
  | nothing e ↦ let h' = rw e at h in rw e ([], h', λ q. refl)
  | writes still e ↦ rw e (write_cut n still)
  | moves m e ↦ rw e (move_cut n m)
]
  where
    write_cut :
        (n : ℕ)
        → is_move op ≡ false
        → Finishes op (take_steps (take (suc n) (first_step op ∷ [])) s) (after_write op s)
    write_cut zero still = finish_write op s still
    write_cut (suc n) still = finish_write op s still

    move_cut :
        (n : ℕ)
        → is_move op ≡ true
        → Finishes op
            (take_steps (take (suc n) (first_step op ∷ remove_file op.old_path ∷ [])) s)
            (after_move op s)
    move_cut zero m = finish_between op s m
    move_cut (suc zero) m = finish_move op s m
    move_cut (suc (suc n)) m = finish_move op s m
