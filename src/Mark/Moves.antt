-- ===== src/Mark/Moves.antt =====
-- internal/writeengine/mark.go: the files at each point of a relocation, a crash between two writes included.
use tk.Prelude.{
  ℕ, zero, suc, ◌+◌, ◌≤◌, Bool, false, not, ◌&&◌, ◌||◌, none, some, [], ◌∷◌, Bytes, ◌≡◌, ◌≢◌, refl,
  sym, ◌∙◌, arith, take, lookup, bytes_eq, bytes_eq_iff, Bool-cases, Option-cases, inl, inr, ◌⊎◌,
}
use tk.Status.{Customs, is_terminal}
use tk.Frontmatter.{Model}
use tk.Placement.{one_if}
use tk.Mark.{
  File, Files, put_file, remove_file, write_file, move_file, apply_op, apply_ops, marked,
  Relocation, relocation_to, relocate, terminal_location, base_of,
}

-- How many files have an id.
unfoldable pub holders : Bytes → Files → ℕ
holders id [] = 0
holders id ((p, x) ∷ fs) = one_if (bytes_eq x.0.id id) + holders id fs

differ : (a b : Bytes) → a ≢ b → bytes_eq a b ≡ false
differ a b h = elim (Bool-cases (bytes_eq a b)) [
  | inl e ↦ absurd (h ((bytes_eq_iff a b).0 e))
  | inr e ↦ e
]

pub lookup-put_file : (fs : Files) (p : Bytes) (x : File) → lookup p (put_file fs p x) ≡ some x
unfolding lookup put_file
lookup-put_file [] p x = rw ((bytes_eq_iff p p).1 refl) refl
lookup-put_file ((q, y) ∷ fs) p x = elim (Bool-cases (bytes_eq q p)) [
  | inl e ↦ rw (e, e) refl
  | inr e ↦ rw (e, e) (lookup-put_file fs p x)
]

pub lookup-put_other :
    (fs : Files) (p : Bytes) (x : File) (q : Bytes)
    → q ≢ p
    → lookup q (put_file fs p x) ≡ lookup q fs
unfolding lookup put_file
lookup-put_other [] p x q ne = rw (differ p q (λ e. ne (sym e))) refl
lookup-put_other ((r, y) ∷ fs) p x q ne = elim (Bool-cases (bytes_eq r p)) [
  | inl e ↦
      let far : bytes_eq r q ≡ false = differ r q (λ s. ne (sym s ∙ (bytes_eq_iff r p).0 e)) in
      rw (e, far) refl
  | inr e ↦ elim (Bool-cases (bytes_eq r q)) [
    | inl f ↦ rw (e, f) refl
    | inr f ↦ rw (e, f) (lookup-put_other fs p x q ne)
  ]
]

pub lookup-remove_file : (fs : Files) (p : Bytes) → lookup p (remove_file fs p) ≡ none
unfolding lookup remove_file
lookup-remove_file [] p = refl
lookup-remove_file ((q, y) ∷ fs) p = elim (Bool-cases (bytes_eq q p)) [
  | inl e ↦ rw e (lookup-remove_file fs p)
  | inr e ↦ rw (e, e) (lookup-remove_file fs p)
]

pub lookup-remove_other :
    (fs : Files) (p q : Bytes) → q ≢ p → lookup q (remove_file fs p) ≡ lookup q fs
unfolding lookup remove_file
lookup-remove_other [] p q ne = refl
lookup-remove_other ((r, y) ∷ fs) p q ne = elim (Bool-cases (bytes_eq r p)) [
  | inl e ↦
      let far : bytes_eq r q ≡ false = differ r q (λ s. ne (sym s ∙ (bytes_eq_iff r p).0 e)) in
      rw (e, far) (lookup-remove_other fs p q ne)
  | inr e ↦ elim (Bool-cases (bytes_eq r q)) [
    | inl f ↦ rw (e, f) refl
    | inr f ↦ rw (e, f) (lookup-remove_other fs p q ne)
  ]
]

holders-put_file :
    (id : Bytes) (fs : Files) (p : Bytes) (x : File)
    → holders id (put_file fs p x) ≤ one_if (bytes_eq x.0.id id) + holders id fs
unfolding holders put_file
holders-put_file id [] p x = omega arith
holders-put_file id ((q, y) ∷ fs) p x = elim (Bool-cases (bytes_eq q p)) [
  | inl e ↦ rw e (omega arith)
  | inr e ↦ rw e (omega (arith, holders-put_file id fs p x))
]

-- A write over a file of the same id.
holders-overwrite :
    (id : Bytes) (fs : Files) (p : Bytes) (x : File) {y : File}
    → lookup p fs ≡ some y
    → x.0.id ≡ y.0.id
    → holders id (put_file fs p x) ≤ holders id fs
unfolding holders put_file lookup
holders-overwrite id [] p x h same = absurd cc
holders-overwrite id ((q, z) ∷ fs) p x {y} h same = elim (Bool-cases (bytes_eq q p)) [
  | inl e ↦ let there = rw e at h in let is_y : z ≡ y = cc in rw (e, same, is_y) (omega arith)
  | inr e ↦ rw e (omega (arith, holders-overwrite id fs p x (rw e at h) same))
]

holders-remove_all :
    (id : Bytes) (fs : Files) (p : Bytes) → holders id (remove_file fs p) ≤ holders id fs
unfolding holders remove_file
holders-remove_all id [] p = omega arith
holders-remove_all id ((q, z) ∷ fs) p = elim (Bool-cases (bytes_eq q p)) [
  | inl e ↦ rw e (omega (arith, holders-remove_all id fs p))
  | inr e ↦ rw e (omega (arith, holders-remove_all id fs p))
]

holders-remove_file :
    (id : Bytes) (fs : Files) (p : Bytes) {y : File}
    → lookup p fs ≡ some y
    → one_if (bytes_eq y.0.id id) + holders id (remove_file fs p) ≤ holders id fs
unfolding holders remove_file lookup
holders-remove_file id [] p h = absurd cc
holders-remove_file id ((q, z) ∷ fs) p {y} h = elim (Bool-cases (bytes_eq q p)) [
  | inl e ↦
      let there = rw e at h in
      let is_y : z ≡ y = cc in rw (e, is_y) (omega (arith, holders-remove_all id fs p))
  | inr e ↦ rw e (omega (arith, holders-remove_file id fs p (rw e at h)))
]

holders-move :
    (id : Bytes) (fs : Files) (p q : Bytes) {y : File}
    → lookup p fs ≡ some y
    → holders id (apply_op (move_file p q) fs) ≤ holders id fs
unfolding apply_op
holders-move id fs p q {y} h =
    rw (h, apply_op)
      (omega (arith, holders-put_file id (remove_file fs p) q y, holders-remove_file id fs p h))

-- The steps of a relocation are a write, and a move where the path changes.
pub data Shape (path : Bytes) (x : File) (r : Relocation) : Type 0 where
  stays : r.ops ≡ write_file path x ∷ [] → r.new_path ≡ path → Shape path x r
  moves :
      r.ops ≡ write_file path x ∷ move_file path r.new_path ∷ []
      → r.new_path ≢ path
      → Shape path x r

relocation_to-Shape :
    (path : Bytes) (x : File) (new_path : Bytes) → Shape path x (relocation_to path x new_path)
relocation_to-Shape path x new_path = elim (Bool-cases (bytes_eq path new_path)) [
  | inl e ↦ rw e (stays refl (sym ((bytes_eq_iff path new_path).0 e)))
  | inr e ↦ rw e (moves refl (λ q. absurd (let f = (bytes_eq_iff path new_path).1 (sym q) in cc)))
]

-- No id is in more files than before, and a ticket's id and body are in the file at one of two paths.
abbrev pub IsKept : Files → Bytes → Bytes → Model → Bytes → Files → Type 0
IsKept fs path new_path m body now_fs =
    ((id : Bytes) → holders id now_fs ≤ holders id fs)
    × ((p : Bytes) × (x : Model) × (lookup p now_fs ≡ some (x, body))
        × (x.id ≡ m.id)
        × ((p ≡ path) ⊎ (p ≡ new_path)))

module _ (made : Bool) (now dir new_status : Bytes) (custom : Customs) where
  pub relocate-Shape :
      (path : Bytes) (m : Model) (body : Bytes) {r : Relocation}
      → relocate made now dir new_status custom path (m, body) ≡ some r
      → Shape path (marked now new_status m, body) r
  unfolding relocate
  relocate-Shape path m body {r} h =
      elim (Bool-cases (
        is_terminal m.status custom && is_terminal new_status custom
        || not (is_terminal m.status custom) && not (is_terminal new_status custom))) [
          | inl e ↦
              let x = rw (e, relocate) at h in
              let same : (record {
                ops = write_file path (marked now new_status m, body) ∷ [];
                new_path = path;
                old_path = [];
              })
                  ≡ r =
                cc in
              rw (← same) (stays refl refl)
          | inr e ↦
              elim (Option-cases
                (terminal_location made dir (base_of path) (is_terminal new_status custom))) [
                  | inl n ↦ absurd (let x = rw (e, n, relocate) at h in cc)
                  | inr (new_path, n) ↦
                      let x = rw (e, n, relocate) at h in
                      let same : relocation_to path (marked now new_status m, body) new_path ≡ r =
                        cc in
                      rw (← same)
                        (relocation_to-Shape path (marked now new_status m, body) new_path)
                ]
        ]

  -- At every point of a relocation, one cut short by a crash included, no id is in more files than before, and
  -- the ticket's id and body are in the file at its old or at its new path.
  pub relocate-crash :
      (fs : Files) (path : Bytes) (m : Model) (body : Bytes) {r : Relocation}
      → lookup path fs ≡ some (m, body)
      → relocate made now dir new_status custom path (m, body) ≡ some r
      → (n : ℕ) → IsKept fs path r.new_path m body (apply_ops (take n r.ops) fs)
  unfolding apply_ops apply_op marked
  relocate-crash fs path m body {r} h k n = elim (relocate-Shape path m body k) [
    | stays ops same ↦ rw ops (write_only n)
    | moves ops far ↦ rw ops (write_move n)
  ]
    where
      x : File
      x = (marked now new_status m, body)

      written : Files
      written = put_file fs path x

      before : IsKept fs path r.new_path m body fs
      before = (λ id. omega arith, (path, m, h, refl, inl refl))

      after_write : IsKept fs path r.new_path m body written
      after_write = (
        λ id. holders-overwrite id fs path x h refl,
        (path, x.0, lookup-put_file fs path x, refl, inl refl),
      )

      write_only :
          (n : ℕ)
          → IsKept fs path r.new_path m body (apply_ops (take n (write_file path x ∷ [])) fs)
      write_only zero = before
      write_only (suc zero) = after_write
      write_only (suc (suc n)) = after_write

      moved : Files
      moved = apply_op (move_file path r.new_path) written

      there : lookup r.new_path moved ≡ some x
      there =
          rw (lookup-put_file fs path x, apply_op)
            (lookup-put_file (remove_file written path) r.new_path x)

      after_move : IsKept fs path r.new_path m body moved
      after_move = (
        λ id. omega (
          arith,
          holders-move id written path r.new_path (lookup-put_file fs path x),
          after_write.0 id,
        ),
        (r.new_path, x.0, there, refl, inr refl),
      )

      write_move :
          (n : ℕ)
          → IsKept fs path r.new_path m body
              (apply_ops (take n (write_file path x ∷ move_file path r.new_path ∷ [])) fs)
      write_move zero = before
      write_move (suc zero) = after_write
      write_move (suc (suc zero)) = after_move
      write_move (suc (suc (suc n))) = after_move
