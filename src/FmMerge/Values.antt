-- ===== src/FmMerge/Values.antt =====
-- internal/fmmerge/fmmerge.go: the merge of single values and of lists.
use tk.Prelude.{
  Bool, true, false, ◌&&◌, not, Option, none, some, List, [], ◌∷◌, ◌++◌, map, Bytes, bytes_eq,
  bytes_lt, contains, if◌then◌else◌,
}
use tk.Frontmatter.{Value, scalar, strings, values, text, sprint, sprint_scalar}

-- `mergeImmutable`: the value and its warning; `none` is the error.
unfoldable pub merge_immutable : Bytes → Bytes → Bytes → Option (Bytes × Bool)
merge_immutable base ours theirs =
    if not (bytes_eq base [])
    then if not (bytes_eq ours base) && not (bytes_eq theirs base)
      then if bytes_eq ours theirs then some (base, true) else none
      else some (base, false)
    else if bytes_eq ours theirs
    then some (ours, false)
    else none

-- A loop of `mergeList`, with the output so far, whose names are those seen.
unfoldable pub add_new : (Bytes → Bool) → List Bytes → List Bytes → List Bytes
add_new wanted out [] = out
add_new wanted out (e ∷ es) =
    if wanted e && not (contains out e)
    then add_new wanted (out ++ e ∷ []) es
    else add_new wanted out es

unfoldable pub merge_list : List Bytes → List Bytes → List Bytes → List Bytes
unfolding add_new
merge_list base ours theirs =
    let kept = add_new (λ e. contains ours e && contains theirs e) [] base in
    let with_ours = add_new (λ e. not (contains base e)) kept ours in
    add_new (λ e. not (contains base e)) with_ours theirs

-- `mergeScalar`; `ours_wins` is what `pickOurs` answers.
unfoldable pub merge_scalar : Bool → Bytes → Bytes → Bytes → Bytes
merge_scalar ours_wins base ours theirs =
    if bytes_eq ours theirs
    then ours
    else if bytes_eq ours base
    then theirs
    else if bytes_eq theirs base
    then ours
    else if ours_wins
    then ours
    else theirs

unfoldable pub sorted_pair : Bytes → Bytes → List Bytes
sorted_pair a b = if bytes_lt b a then b ∷ a ∷ [] else a ∷ b ∷ []

unfoldable pub equal_seq : List Bytes → List Bytes → Bool
equal_seq [] [] = true
equal_seq [] (b ∷ m) = false
equal_seq (a ∷ l) [] = false
equal_seq (a ∷ l) (b ∷ m) = bytes_eq a b && equal_seq l m

-- `mergeInherited`; `none` is its error.
unfoldable pub merge_inherited : List Bytes → List Bytes → List Bytes → Option (List Bytes)
unfolding equal_seq
merge_inherited base ours theirs =
    let ours_changed = not (equal_seq ours base) in
    let theirs_changed = not (equal_seq theirs base) in
    if not ours_changed && not theirs_changed
    then some base
    else if ours_changed && not theirs_changed
    then some ours
    else if not ours_changed && theirs_changed
    then some theirs
    else if equal_seq ours theirs
    then some ours
    else none

-- `stateKey`: an absent key is the byte 0.
unfoldable pub state_key : Option Value → Bytes
unfolding sprint
state_key none = 0 ∷ []
state_key (some v) = 1 ∷ sprint v

-- `mergeScalarOpt`
unfoldable pub merge_scalar_opt : Bool → Option Value → Option Value → Option Value → Option Value
unfolding state_key
merge_scalar_opt ours_wins base ours theirs =
    if bytes_eq (state_key ours) (state_key theirs)
    then ours
    else if bytes_eq (state_key ours) (state_key base)
    then theirs
    else if bytes_eq (state_key theirs) (state_key base)
    then ours
    else if ours_wins
    then ours
    else theirs

-- `toStrings`
unfoldable pub to_strings : Option Value → List Bytes
unfolding sprint_scalar
to_strings none = []
to_strings (some (scalar s)) = []
to_strings (some (strings l)) = l
to_strings (some (values l)) = map sprint_scalar l

-- `toAnyList`
abbrev pub to_any_list : List Bytes → Value
to_any_list l = values (map text l)
