-- ===== src/Title.antt =====
-- internal/title/title.go: the first heading of a body. White space is Unicode's, by its bytes in UTF-8.
mod Examples
use tk.Prelude.{
  ℕ, zero, suc, Bool, true, false, ◌&&◌, ◌||◌, not, Option, none, some, List, [], ◌∷◌, ◌++◌, Bytes,
  codes, map, bytes_eq, length, drop, ◌==◌, if◌then◌else◌,
}
use tk.Id.{has_prefix, trim_prefix}
use tk.Frontmatter.{Line, first_line, trim_cr, line_end}

-- The white space of `\s` in a Go regular expression.
abbrev pub is_space : ℕ → Bool
is_space c = c == b' ' || c == b'\t' || c == b'\n' || c == b'\r' || c == 12

-- `atxH1`: a '#', white space, and one more character at least.
unfoldable pub atx_h1 : Bytes → Bool
atx_h1 (h ∷ s ∷ c ∷ cs) = h == b'#' && is_space s
atx_h1 _ = false

-- The white space that `strings.TrimSpace` trims.
abbrev pub after : ℕ → ℕ → List ℕ → List Bytes
after a b cs = map (λ (c : ℕ). a ∷ b ∷ c ∷ []) cs

unfoldable pub white_space : List Bytes
white_space =
    map (λ (c : ℕ). c ∷ []) (9 ∷ 10 ∷ 11 ∷ 12 ∷ 13 ∷ 32 ∷ [])
    ++ ((194 ∷ 133 ∷ []) ∷ (194 ∷ 160 ∷ []) ∷ [])
    ++ after 225 154 (128 ∷ [])
    ++ after 226 128
        (128 ∷ 129 ∷ 130 ∷ 131 ∷ 132 ∷ 133 ∷ 134 ∷ 135 ∷ 136 ∷ 137 ∷ 138 ∷ 168 ∷ 169 ∷ 175 ∷ [])
    ++ after 226 129 (159 ∷ [])
    ++ after 227 128 (128 ∷ [])

unfoldable pub reverse_onto : Bytes → Bytes → Bytes
reverse_onto [] acc = acc
reverse_onto (c ∷ cs) acc = reverse_onto cs (c ∷ acc)

abbrev pub reversed : Bytes → Bytes
reversed s = reverse_onto s []

-- One character of white space taken off the front.
unfoldable pub strip_one : List Bytes → Bytes → Option Bytes
unfolding has_prefix
strip_one [] s = none
strip_one (w ∷ ws) s = if has_prefix s w then some (drop (length w) s) else strip_one ws s

-- On fuel; each round takes a byte at least.
unfoldable pub trim_front : ℕ → List Bytes → Bytes → Bytes
unfolding strip_one
trim_front zero ws s = s
trim_front (suc f) ws s = elim (strip_one ws s) [ none ↦ s | some rest ↦ trim_front f ws rest ]

unfoldable pub trim_space : Bytes → Bytes
unfolding trim_front white_space reverse_onto
trim_space s =
    let front = trim_front (length s) white_space s in
    reversed (trim_front (length s) (map reversed white_space) (reversed front))

pub record Parts : Type 0 where
  pub before : Bytes
  pub heading : Bytes
  pub rest : Bytes

abbrev pub heading_of : Bytes → Bytes
heading_of line = if atx_h1 line then trim_space (trim_prefix line (codes "#")) else []

-- The loop of `SplitH1Parts` on fuel, with the bytes before; `none` past the last line.
unfoldable pub find_h1 : ℕ → Bytes → Bytes → Option Parts
unfolding first_line trim_cr atx_h1 trim_space trim_prefix
find_h1 zero before remaining = none
find_h1 (suc f) before [] = none
find_h1 (suc f) before (c ∷ cs) =
    let l = first_line (c ∷ cs) in
    let heading = heading_of (trim_cr l.line) in
    let later = find_h1 f (before ++ (l.line ++ line_end l.had_newline)) l.rest in
    if bytes_eq heading []
    then later
    else some (record { before = before; heading = heading; rest = l.rest })

unfoldable pub split_h1_parts : Bytes → Parts
unfolding find_h1
split_h1_parts body = elim (find_h1 (length body) [] body) [
  | none ↦ record { before = []; heading = []; rest = body }
  | some p ↦ p
]

unfoldable pub extract : Bytes → Bytes
unfolding split_h1_parts
extract body = (split_h1_parts body).heading
