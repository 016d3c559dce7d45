-- ===== src/BodyEdit/Lines.antt =====
-- internal/bodyedit/bodyedit.go: the lines of a body end as POSIX wants them.
use tk.Prelude.{false, [], ◌∷◌, Bytes, ◌≡◌, refl, ◌==◌, Bool-cases, inl, inr, ap}
use tk.Id.{has_byte}
use tk.BodyEdit.{crlf_to_lf, cr_to_lf, posix_lf}

cr_to_lf-no_cr : (s : Bytes) → has_byte (cr_to_lf s) b'\r' ≡ false
unfolding has_byte cr_to_lf
cr_to_lf-no_cr [] = refl
cr_to_lf-no_cr (c ∷ cs) = elim (Bool-cases (c == b'\r')) [
  | inl e ↦ rw e (cr_to_lf-no_cr cs)
  | inr e ↦ rw (e, e) (cr_to_lf-no_cr cs)
]

cr_to_lf-fixed : (s : Bytes) → has_byte s b'\r' ≡ false → cr_to_lf s ≡ s
unfolding has_byte cr_to_lf
cr_to_lf-fixed [] h = refl
cr_to_lf-fixed (c ∷ cs) h = elim (Bool-cases (c == b'\r')) [
  | inl e ↦ absurd (let x = rw e at h in cc)
  | inr e ↦ rw e (ap (◌∷◌ c) (cr_to_lf-fixed cs (rw e at h)))
]

crlf_to_lf-fixed : (s : Bytes) → has_byte s b'\r' ≡ false → crlf_to_lf s ≡ s
unfolding has_byte crlf_to_lf
crlf_to_lf-fixed [] h = refl
crlf_to_lf-fixed (c ∷ []) h = refl
crlf_to_lf-fixed (c ∷ d ∷ ds) h = elim (Bool-cases (c == b'\r')) [
  | inl e ↦ absurd (let x = rw e at h in cc)
  | inr e ↦ let rest = crlf_to_lf-fixed (d ∷ ds) (rw e at h) in rw e (ap (◌∷◌ c) rest)
]

-- No carriage return is left of a text, and a text without one is kept as it is.
posix_lf-no_cr : (s : Bytes) → has_byte (posix_lf s) b'\r' ≡ false
unfolding posix_lf
posix_lf-no_cr s = cr_to_lf-no_cr (crlf_to_lf s)

posix_lf-posix_lf : (s : Bytes) → posix_lf (posix_lf s) ≡ posix_lf s
unfolding posix_lf
posix_lf-posix_lf s =
    let clean = cr_to_lf-no_cr (crlf_to_lf s) in
    rw (crlf_to_lf-fixed (cr_to_lf (crlf_to_lf s)) clean)
      (cr_to_lf-fixed (cr_to_lf (crlf_to_lf s)) clean)
