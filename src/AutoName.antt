-- ===== src/AutoName.antt =====
-- internal/scope/autoname.go: a scope name from the last part of a path. The path is its code points, and the case
-- of a letter and its lower case, Unicode's tables, are parameters; a code point past 127 is in no
-- alphabet, as none of its bytes is.
mod Names
mod Legal
mod Examples
use tk.Prelude.{
  ℕ, zero, suc, Bool, true, false, ◌&&◌, ◌||◌, not, Option, none, some, List, [], ◌∷◌, ◌++◌, Bytes,
  map, all, take, length, ltb, ◌==◌, if◌then◌else◌,
}
use tk.Id.{scope_name_max, has_byte, letter_alphabet, digit_alphabet}
use tk.Scopefile.{last_slash}

unfoldable pub is_auto_letter : ℕ → Bool
unfolding has_byte letter_alphabet
is_auto_letter c = has_byte letter_alphabet c

unfoldable pub in_alphabet : ℕ → Bool
unfolding is_auto_letter has_byte digit_alphabet
in_alphabet c = is_auto_letter c || has_byte digit_alphabet c

-- `strings.TrimRight(s, "/")`
unfoldable pub trim_right_slashes : List ℕ → List ℕ
trim_right_slashes [] = []
trim_right_slashes (c ∷ cs) = elim (trim_right_slashes cs) [
  | [] ↦ if c == b'/' then [] else c ∷ []
  | d ∷ ds ↦ c ∷ d ∷ ds
]

unfoldable pub last_segment : List ℕ → List ℕ
unfolding trim_right_slashes last_slash
last_segment s = elim (last_slash (trim_right_slashes s)) [
  | none ↦ trim_right_slashes s
  | some (d, b) ↦ b
]

unfoldable pub is_separator : ℕ → Bool
is_separator r = r == b'-' || r == b'_' || r == b'.' || r == b' '

abbrev pub flush_piece : List ℕ → List (List ℕ) → List (List ℕ)
flush_piece [] pieces = pieces
flush_piece (c ∷ cs) pieces = (c ∷ cs) ∷ pieces

-- `strings.FieldsFunc`, with the piece so far.
unfoldable pub fields_from : List ℕ → List ℕ → List (List ℕ)
unfolding is_separator
fields_from piece [] = flush_piece piece []
fields_from piece (c ∷ cs) =
    let cut = fields_from [] cs in
    let grown = fields_from (piece ++ c ∷ []) cs in
    if is_separator c then flush_piece piece cut else grown

abbrev pub next_is : (ℕ → Bool) → List ℕ → Bool
next_is test [] = false
next_is test (c ∷ cs) = test c

module _ (is_upper is_lower : ℕ → Bool) (to_lower : ℕ → ℕ) where
  unfoldable pub is_boundary : ℕ → ℕ → List ℕ → Bool
  is_boundary prev cur later =
      if is_upper cur then (if not (is_upper prev) then true else next_is is_lower later) else false

  -- The loop of `splitCamel`, with the token so far and its last rune.
  unfoldable pub camel_from : List ℕ → ℕ → List ℕ → List (List ℕ)
  unfolding is_boundary
  camel_from token prev [] = token ∷ []
  camel_from token prev (cur ∷ later) =
      let cut = camel_from (cur ∷ []) cur later in
      let grown = camel_from (token ++ cur ∷ []) cur later in
      if is_boundary prev cur later then token ∷ cut else grown

  unfoldable pub split_camel : List ℕ → List (List ℕ)
  unfolding camel_from
  split_camel [] = []
  split_camel (c ∷ cs) = camel_from (c ∷ []) c cs

  unfoldable pub split_pieces : List (List ℕ) → List (List ℕ)
  unfolding split_camel
  split_pieces [] = []
  split_pieces (p ∷ ps) = split_camel p ++ split_pieces ps

  unfoldable pub tokenise : List ℕ → List (List ℕ)
  unfolding split_pieces fields_from
  tokenise s = map (λ (t : List ℕ). map to_lower t) (split_pieces (fields_from [] s))

  abbrev pub initials : List (List ℕ) → List ℕ
  initials [] = []
  initials (t ∷ ts) = take 1 t ++ initials ts

  unfoldable pub seed_of : List (List ℕ) → List ℕ
  seed_of [] = []
  seed_of (t ∷ []) = take 2 t
  seed_of (t ∷ u ∷ ts) = initials (t ∷ u ∷ ts)

  unfoldable pub kept_of : List ℕ → List ℕ
  unfolding in_alphabet
  kept_of [] = []
  kept_of (c ∷ cs) = if in_alphabet c then c ∷ kept_of cs else kept_of cs

  unfoldable pub from_letter : List ℕ → List ℕ
  unfolding is_auto_letter
  from_letter [] = []
  from_letter (c ∷ cs) = if not (is_auto_letter c) then from_letter cs else c ∷ cs

  unfoldable pub sanitize : List ℕ → List ℕ
  unfolding kept_of from_letter
  sanitize seed =
      let kept = from_letter (kept_of seed) in
      if ltb scope_name_max (length kept) then take scope_name_max kept else kept

  unfoldable pub accept : List ℕ → Bool
  unfolding is_auto_letter in_alphabet
  accept [] = false
  accept (c ∷ cs) =
      if ltb scope_name_max (length (c ∷ cs))
      then false
      else if not (is_auto_letter c)
      then false
      else all in_alphabet cs

  -- `AutoName`; `none` is its error.
  unfoldable pub auto_name : List ℕ → Option (List ℕ)
  unfolding last_segment tokenise seed_of sanitize accept
  auto_name basename =
      let name = sanitize (seed_of (tokenise (last_segment basename))) in
      if not (accept name) then none else some name
