-- ===== src/Mark/Places.antt =====
-- internal/writeengine/mark.go: where a marked ticket ends up, and what becomes of the other files.
use tk.Prelude.{
  Bool, true, false, not, ◌&&◌, ◌||◌, none, some, [], ◌∷◌, ◌++◌, Bytes, ◌≡◌, ◌≢◌, refl, sym, ◌∙◌,
  arith, ap, lookup, bytes_eq, ◌==◌, Bool-cases, Option-cases, inl, inr, append_assoc,
}
use tk.Id.{has_byte}
use tk.Status.{Customs, is_terminal}
use tk.Frontmatter.{Model}
use tk.Resolve.{ends_in_slash}
use tk.Scopefile.{join_path, last_slash, archive_dir}
use tk.Mark.{
  File, Files, remove_file, put_file, write_file, move_file, apply_op, apply_ops, marked,
  Relocation, relocation_to, relocate, terminal_location, location, base_of,
}
use tk.Mark.Moves.{
  stays, moves, relocate-Shape, lookup-put_file, lookup-put_other, lookup-remove_file,
  lookup-remove_other,
}

last_slash-none : (base : Bytes) → has_byte base b'/' ≡ false → last_slash base ≡ none
unfolding last_slash has_byte
last_slash-none [] h = refl
last_slash-none (c ∷ cs) h = elim (Bool-cases (c == b'/')) [
  | inl e ↦ absurd (ground (arith))
  | inr e ↦ rw (last_slash-none cs (ground arith), e) refl
]

last_slash-append :
    (d base : Bytes) → has_byte base b'/' ≡ false → last_slash (d ++ b'/' ∷ base) ≡ some (d, base)
unfolding last_slash
last_slash-append [] base h = rw (last_slash-none base h) refl
last_slash-append (c ∷ d) base h = rw (last_slash-append d base h) refl

slash_ended : (root : Bytes) → ends_in_slash root ≡ true → (d : Bytes) × (root ≡ d ++ b'/' ∷ [])
unfolding ends_in_slash
slash_ended [] h = absurd cc
slash_ended (c ∷ []) h = ([], ground arith)
slash_ended (c ∷ e ∷ cs) h = let (d, q) = slash_ended (e ∷ cs) h in (c ∷ d, ap (◌∷◌ c) q)

base_of-join_path :
    (root base : Bytes) → has_byte base b'/' ≡ false → base_of (join_path root base) ≡ base
unfolding base_of join_path
base_of-join_path root base h = elim (Bool-cases (ends_in_slash root)) [
  | inl e ↦
      let (d, q) = slash_ended root e in
      let whole : root ++ base ≡ d ++ b'/' ∷ base =
        ap (λ (r : Bytes). r ++ base) q ∙ append_assoc d (b'/' ∷ []) base in
      rw (e, whole, last_slash-append d base h, base_of) refl
  | inr e ↦ rw (e, last_slash-append root base h, base_of) refl
]

base_of-location :
    (dir base : Bytes) (t : Bool)
    → has_byte base b'/' ≡ false
    → base_of (location dir base t) ≡ base
unfolding location
base_of-location dir base true h = base_of-join_path (join_path dir archive_dir) base h
base_of-location dir base false h = base_of-join_path dir base h

terminal_location-location :
    (made : Bool) (dir base : Bytes) (t : Bool) {p : Bytes}
    → terminal_location made dir base t ≡ some p
    → p ≡ location dir base t
unfolding terminal_location
terminal_location-location made dir base false h = cc
terminal_location-location true dir base true h = cc
terminal_location-location false dir base true h = absurd cc

module _ (made : Bool) (now dir new_status : Bytes) (custom : Customs) where
  new_path_is :
      (base path : Bytes) (m : Model) (body : Bytes) {r : Relocation}
      → has_byte base b'/' ≡ false
      → path ≡ location dir base (is_terminal m.status custom)
      → relocate made now dir new_status custom path (m, body) ≡ some r
      → r.new_path ≡ location dir base (is_terminal new_status custom)
  unfolding relocate
  new_path_is base path m body {r} flat at h =
      elim (Bool-cases (
        is_terminal m.status custom && is_terminal new_status custom
        || not (is_terminal m.status custom) && not (is_terminal new_status custom))) [
          | inl e ↦
              let x = rw (e, relocate) at h in
              let same : (record {
                ops = write_file path (marked now new_status m, body) ∷ [];
                new_path = path;
                old_path = [];
              })
                  ≡ r =
                cc in
              let agree : is_terminal m.status custom ≡ is_terminal new_status custom =
                ground arith in
              sym (ap (λ (q : Relocation). q.new_path) same) ∙ at ∙ ap (location dir base) agree
          | inr e ↦
              elim (Option-cases
                (terminal_location made dir (base_of path) (is_terminal new_status custom))) [
                  | inl n ↦ absurd (let x = rw (e, n, relocate) at h in cc)
                  | inr (p, n) ↦
                      let x = rw (e, n, relocate) at h in
                      let same : relocation_to path (marked now new_status m, body) p ≡ r = cc in
                      let base_is : base_of path ≡ base =
                        ap base_of at
                        ∙ base_of-location dir base (is_terminal m.status custom) flat in
                      sym (ap (λ (q : Relocation). q.new_path) same)
                      ∙ to_path path (marked now new_status m, body) p
                      ∙ terminal_location-location made dir (base_of path)
                          (is_terminal new_status custom) n
                      ∙ ap (λ (b : Bytes). location dir b (is_terminal new_status custom)) base_is
                ]
        ]
    where
      to_path : (path : Bytes) (x : File) (p : Bytes) → (relocation_to path x p).new_path ≡ p
      to_path path x p = elim (Bool-cases (bytes_eq path p)) [
        | inl e ↦ rw e refl
        | inr e ↦ rw e refl
      ]

  -- A ticket that stands where its status puts it, in the archive exactly when the status is terminal, stands
  -- after a mark where the new status puts it, with that status and its own body; its old path is free
  -- if it moved, and the file at every other path is as it was.
  pub relocate-location :
      (fs : Files) (base path : Bytes) (m : Model) (body : Bytes) {r : Relocation}
      → has_byte base b'/' ≡ false
      → path ≡ location dir base (is_terminal m.status custom)
      → relocate made now dir new_status custom path (m, body) ≡ some r
      → (r.new_path ≡ location dir base (is_terminal new_status custom))
        × (lookup r.new_path (apply_ops r.ops fs) ≡ some (marked now new_status m, body))
        × (r.new_path ≢ path → lookup path (apply_ops r.ops fs) ≡ none)
        × ((p : Bytes) → p ≢ path → p ≢ r.new_path → lookup p (apply_ops r.ops fs) ≡ lookup p fs)
  unfolding apply_ops apply_op
  relocate-location fs base path m body {r} flat at h =
      let placed = new_path_is base path m body flat at h in
      elim (relocate-Shape made now dir new_status custom path m body h) [
        | stays ops same ↦ (
          placed,
          rw (ops, same) (lookup-put_file fs path x),
          (λ ne. absurd (ne same)),
          (λ p far not_new. rw ops (lookup-put_other fs path x p far)),
        )
        | moves ops ne ↦ (
          placed,
          rw (ops, written) (lookup-put_file (remove_file (put_file fs path x) path) r.new_path x),
          (λ far.
              rw (ops, written)
                (lookup-put_other (remove_file (put_file fs path x) path) r.new_path x path
                    (λ e. ne (sym e))
                  ∙ lookup-remove_file (put_file fs path x) path)),
          (λ p far not_new.
              rw (ops, written)
                (lookup-put_other (remove_file (put_file fs path x) path) r.new_path x p not_new
                  ∙ lookup-remove_other (put_file fs path x) path p far
                  ∙ lookup-put_other fs path x p far)),
        )
      ]
    where
      x : File
      x = (marked now new_status m, body)

      written :
          apply_op (move_file path r.new_path) (put_file fs path x)
          ≡ put_file (remove_file (put_file fs path x) path) r.new_path x
      written = rw (lookup-put_file fs path x, apply_op) refl
