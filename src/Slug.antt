-- ===== src/Slug.antt =====
-- internal/slug/slug.go: the slug of a file name, made of a title.
-- The NFKC normalisation is a parameter, which gives runes; a rune that is kept is one byte.
mod Legal
mod Examples
use tk.Prelude.{
  ℕ, ◌+◌, Bool, true, false, ◌&&◌, ◌||◌, not, Option, none, some, List, [], ◌∷◌, ◌++◌, Bytes, codes,
  bytes_eq, length, take, leb, ltb, ◌==◌, if◌then◌else◌,
}
use tk.Frontmatter.{join}

abbrev pub slug_max : ℕ
slug_max = 48

abbrev pub fallback : Bytes
fallback = codes "x"

abbrev pub is_upper : ℕ → Bool
is_upper r = leb b'A' r && leb r b'Z'

unfoldable pub is_kept : ℕ → Bool
is_kept r = leb b'a' r && leb r b'z' || leb b'0' r && leb r b'9'

abbrev pub flush : Bytes → List Bytes
flush [] = []
flush (c ∷ cur) = (c ∷ cur) ∷ []

-- The loop over the runes, with the token that is being read: the tokens from there on.
unfoldable pub tokens_from : Bytes → List ℕ → List Bytes
unfolding is_kept
tokens_from cur [] = flush cur
tokens_from cur (r ∷ rs) =
    let lower = tokens_from (cur ++ (r + 32) ∷ []) rs in
    let kept = tokens_from (cur ++ r ∷ []) rs in
    let cut = tokens_from [] rs in
    if is_upper r then lower else if is_kept r then kept else flush cur ++ cut

abbrev pub put_before : ℕ → Option Bytes → Option Bytes
put_before c none = none
put_before c (some s) = some (c ∷ s)

-- `strings.LastIndexByte` with the cut at it: what stands before the last '-'.
unfoldable pub before_last_hyphen : Bytes → Option Bytes
before_last_hyphen [] = none
before_last_hyphen (c ∷ cs) = elim (before_last_hyphen cs) [
  | some s ↦ some (c ∷ s)
  | none ↦ if c == b'-' then some [] else none
]

-- `strings.TrimRight(s, "-")`
abbrev pub put_unless_hyphens : ℕ → Bytes → Bytes
put_unless_hyphens c [] = if c == b'-' then [] else c ∷ []
put_unless_hyphens c (d ∷ s) = c ∷ d ∷ s

unfoldable pub trim_right_hyphens : Bytes → Bytes
trim_right_hyphens [] = []
trim_right_hyphens (c ∷ cs) = put_unless_hyphens c (trim_right_hyphens cs)

unfoldable pub truncate : Bytes → Bytes
unfolding before_last_hyphen trim_right_hyphens
truncate s = elim (before_last_hyphen (take (slug_max + 1) s)) [
  | some cut ↦ cut
  | none ↦ trim_right_hyphens (take slug_max s)
]

abbrev pub or_fallback : Bytes → Bytes
or_fallback [] = fallback
or_fallback (c ∷ s) = c ∷ s

unfoldable pub slug_of_tokens : List Bytes → Bytes
unfolding truncate
slug_of_tokens [] = fallback
slug_of_tokens (t ∷ ts) =
    let s = join (codes "-") (t ∷ ts) in
    or_fallback (if ltb slug_max (length s) then truncate s else s)

unfoldable pub slugify : (Bytes → List ℕ) → Bytes → Bytes
unfolding slug_of_tokens tokens_from
slugify nfkc title = slug_of_tokens (tokens_from [] (nfkc title))

-- The loop of `Valid`.
unfoldable pub valid_from : Bool → Bytes → Bool
unfolding is_kept
valid_from prev_hyphen [] = not prev_hyphen
valid_from prev_hyphen (c ∷ cs) =
    let kept = valid_from false cs in
    let hyphen = valid_from true cs in
    if is_kept c then kept else if c == b'-' then if prev_hyphen then false else hyphen else false

unfoldable pub valid : Bytes → Bool
unfolding valid_from
valid s = if ltb (length s) 1 || ltb slug_max (length s) then false else valid_from true s
