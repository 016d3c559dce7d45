-- ===== src/Frontmatter/Fence.antt =====
-- internal/frontmatter/frontmatter.go: `Compose` and `Split` together.
use tk.Prelude.{
  ℕ, zero, suc, ◌≤◌, Bool, true, false, some, List, [], ◌∷◌, ◌++◌, Bytes, ◌≡◌, refl, arith,
  append_assoc, append-nil, bytes_eq, codes, length, length-append, ◌==◌, Bool-cases, inl, inr, ap,
  ◌∙◌, if◌then◌else◌,
}
use tk.Frontmatter.{first_line, is_fence, split_from, split, compose, fence}

-- The lines of an interior: none holds a newline and none is a fence.
abbrev pub no_newline : Bytes → Bool
no_newline [] = true
no_newline (c ∷ cs) = if c == b'\n' then false else no_newline cs

abbrev pub AreInterior : List Bytes → Type 0
AreInterior [] = Unit
AreInterior (l ∷ ls) = (no_newline l ≡ true) × (is_fence l ≡ false) × AreInterior ls

abbrev pub unlines : List Bytes → Bytes
unlines [] = []
unlines (l ∷ ls) = l ++ b'\n' ∷ unlines ls

first_line-append :
    (l rest : Bytes)
    → no_newline l ≡ true
    → first_line (l ++ b'\n' ∷ rest) ≡ record { line = l; rest = rest; had_newline = true }
unfolding first_line
first_line-append [] rest h = refl
first_line-append (c ∷ l) rest h = elim (Bool-cases (c == b'\n')) [
  | inl e ↦ absurd (ground arith)
  | inr e ↦ rw e (rw (first_line-append l rest (ground arith)) refl)
]

split_from-line :
    (f : ℕ) (interior l rest : Bytes)
    → no_newline l ≡ true
    → split_from (suc f) interior (l ++ b'\n' ∷ rest) ≡ (
        if is_fence l
        then some (interior, rest)
        else split_from f (interior ++ (l ++ b'\n' ∷ [])) rest)
unfolding split_from
split_from-line f interior [] rest h = refl
split_from-line f interior (c ∷ l) rest h = rw (first_line-append (c ∷ l) rest h) refl

split_from-unlines :
    (ls : List Bytes) (f : ℕ) (interior body : Bytes)
    → AreInterior ls
    → length (unlines ls ++ (fence ++ body)) ≤ f
    → split_from f interior (unlines ls ++ (fence ++ body)) ≡ some (interior ++ unlines ls, body)
split_from-unlines ls zero interior body i h =
    absurd (omega (arith, length-append (unlines ls) (fence ++ body)))
split_from-unlines [] (suc f) interior body i h =
    split_from-line f interior (codes "---") body refl
    ∙ unfold is_fence bytes_eq in rw append-nil refl
split_from-unlines (l ∷ ls) (suc f) interior body (n, o, i) h =
    let tail : Bytes = unlines ls ++ (fence ++ body) in
    let regroup : unlines (l ∷ ls) ++ (fence ++ body) ≡ l ++ b'\n' ∷ tail =
      append_assoc l (b'\n' ∷ unlines ls) (fence ++ body) in
    let len : length (l ++ b'\n' ∷ tail) ≤ suc f = rw regroup at h in
    let taken : Bytes = interior ++ (l ++ b'\n' ∷ []) in
    let joined : taken ++ unlines ls ≡ interior ++ unlines (l ∷ ls) =
      append_assoc interior (l ++ b'\n' ∷ []) (unlines ls)
      ∙ ap (λ t. interior ++ t) (append_assoc l (b'\n' ∷ []) (unlines ls)) in
    ap (split_from (suc f) interior) regroup
    ∙ split_from-line f interior l tail n
    ∙ ap (λ b. if b then some (interior, tail) else split_from f taken tail) o
    ∙ split_from-unlines ls f taken body i (omega (arith, length-append l (b'\n' ∷ tail)))
    ∙ ap (λ t. some (t, body)) joined

-- Splitting a composed file gives its frontmatter and its body back, whatever the body holds: for an
-- interior made of whole lines none of which is a fence.
pub split-compose :
    (lines : List Bytes) (body : Bytes)
    → AreInterior lines
    → split (compose (unlines lines) body)
      ≡ record { interior = unlines lines; body = body; present = true }
unfolding split compose is_fence bytes_eq
split-compose lines body i =
    let rest : Bytes = unlines lines ++ (fence ++ body) in
    let read = split_from-unlines lines (length rest) [] body i (omega arith) in rw read refl
