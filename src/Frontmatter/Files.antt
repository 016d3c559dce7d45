-- ===== src/Frontmatter/Files.antt =====
-- internal/frontmatter/frontmatter.go: the fence of a ticket file.
use tk.Prelude.{
  ℕ, Bool, true, false, ◌||◌, not, Option, none, some, [], ◌∷◌, ◌++◌, Bytes, codes, bytes_eq,
  length, ◌==◌, if◌then◌else◌,
}

-- `firstLine`, whose flag is whether a newline ends the line.
pub record Line : Type 0 where
  pub line : Bytes
  pub rest : Bytes
  pub had_newline : Bool

abbrev pub put_in_line : ℕ → Line → Line
put_in_line c l = record l { line = c ∷ l.line }

unfoldable pub first_line : Bytes → Line
first_line [] = record { line = []; rest = []; had_newline = false }
first_line (c ∷ cs) =
    if c == b'\n'
    then record { line = []; rest = cs; had_newline = true }
    else put_in_line c (first_line cs)

-- `bytes.TrimSuffix(line, "\r")`
unfoldable pub trim_cr : Bytes → Bytes
trim_cr [] = []
trim_cr (c ∷ []) = if c == b'\r' then [] else c ∷ []
trim_cr (c ∷ d ∷ ds) = c ∷ trim_cr (d ∷ ds)

unfoldable pub is_fence : Bytes → Bool
unfolding trim_cr
is_fence line = bytes_eq (trim_cr line) (codes "---")

abbrev pub line_end : Bool → Bytes
line_end true = b'\n' ∷ []
line_end false = []

-- The loop of `Split`, with the interior read so far: the interior and the body at the closing fence.
-- Each round takes a line, so as many rounds as bytes are enough.
unfoldable pub split_from : ℕ → Bytes → Bytes → Option (Bytes × Bytes)
unfolding first_line is_fence
split_from ℕ.zero interior remaining = none
split_from (ℕ.suc f) interior [] = none
split_from (ℕ.suc f) interior (c ∷ cs) =
    let l = first_line (c ∷ cs) in
    let more = split_from f (interior ++ (l.line ++ line_end l.had_newline)) l.rest in
    if is_fence l.line then some (interior, l.rest) else more

pub record Parted : Type 0 where
  pub interior : Bytes
  pub body : Bytes
  pub present : Bool

abbrev pub unfenced : Bytes → Parted
unfenced file = record { interior = []; body = file; present = false }

unfoldable pub split : Bytes → Parted
unfolding split_from first_line is_fence
split file =
    let l = first_line file in
    if not l.had_newline || not (is_fence l.line)
    then unfenced file
    else elim (split_from (length l.rest) [] l.rest) [
      | none ↦ unfenced file
      | some (interior, body) ↦ record { interior = interior; body = body; present = true }
    ]

abbrev pub fence : Bytes
fence = codes "---\n"

unfoldable pub compose : Bytes → Bytes → Bytes
compose interior body = fence ++ (interior ++ (fence ++ body))
