-- ===== src/BodyEdit.antt =====
-- internal/bodyedit/bodyedit.go: the heading and the body that are written after a fence.
mod Lines
use tk.Prelude.{
  ℕ, Bool, true, false, ◌&&◌, ◌||◌, not, Option, none, some, List, [], ◌∷◌, ◌++◌, Bytes, codes,
  bytes_eq, ◌==◌, if◌then◌else◌,
}
use tk.Id.{has_byte}
use tk.Title.{trim_space, split_h1_parts}

-- `strings.ReplaceAll(s, "\r\n", "\n")`
unfoldable pub crlf_to_lf : Bytes → Bytes
crlf_to_lf [] = []
crlf_to_lf (c ∷ []) = c ∷ []
crlf_to_lf (c ∷ d ∷ ds) =
    let after_pair = crlf_to_lf ds in
    let after_one = crlf_to_lf (d ∷ ds) in
    if c == b'\r' && d == b'\n' then b'\n' ∷ after_pair else c ∷ after_one

-- `strings.ReplaceAll(s, "\r", "\n")`
unfoldable pub cr_to_lf : Bytes → Bytes
cr_to_lf [] = []
cr_to_lf (c ∷ cs) = (if c == b'\r' then b'\n' else c) ∷ cr_to_lf cs

unfoldable pub posix_lf : Bytes → Bytes
unfolding crlf_to_lf cr_to_lf
posix_lf s = cr_to_lf (crlf_to_lf s)

unfoldable pub ends_in_newline : Bytes → Bool
ends_in_newline [] = false
ends_in_newline (c ∷ []) = c == b'\n'
ends_in_newline (c ∷ d ∷ ds) = ends_in_newline (d ∷ ds)

-- A newline where a text that is there does not end in one.
abbrev pub closing : Bytes → Bytes
closing s = if not (bytes_eq s []) && not (ends_in_newline s) then b'\n' ∷ [] else []

unfoldable pub replace : Bytes → Bytes → Bytes → Bytes → Bytes
unfolding posix_lf ends_in_newline
replace fence title lead body =
    let lead' = posix_lf lead in
    let body' = posix_lf body in
    fence
    ++ (if ends_in_newline fence then [] else b'\n' ∷ [])
    ++ lead'
    ++ closing lead'
    ++ codes "# "
    ++ title
    ++ b'\n' ∷ (body' ++ closing body')

-- `NormalizeTitle`; `none` is its error.
unfoldable pub normalize_title : Bytes → Option Bytes
unfolding trim_space split_h1_parts has_byte
normalize_title raw =
    let s = trim_space raw in
    let p = split_h1_parts s in
    if bytes_eq s []
    then none
    else if has_byte s b'\r' || has_byte s b'\n'
    then none
    else if not (bytes_eq p.heading []) && bytes_eq p.rest []
    then some p.heading
    else some s
