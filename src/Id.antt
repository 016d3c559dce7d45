-- ===== src/Id.antt =====
-- internal/id/id.go and internal/id/mintblock.go: ticket ids, their short-ids, minting and extension.
-- The randomness source is the list of bytes that it will give; `none` is a failed read.
pub mod Forms
mod Mint
mod Odometer
pub mod Extend
mod Examples
use tk.Prelude.{
  ℕ, zero, suc, ◌+◌, ◌-◌, ◌*◌, ◌%◌, Bool, true, false, ◌&&◌, ◌||◌, not, Option, none, some, List,
  [], ◌∷◌, ◌++◌, map, Bytes, codes, bytes_eq, contains, length, get_or, replicate, drop, all, ltb,
  leb, ◌==◌, if◌then◌else◌,
}

abbrev pub short_id_min : ℕ
short_id_min = 4

abbrev pub short_id_max : ℕ
short_id_max = 8

abbrev pub scope_name_max : ℕ
scope_name_max = 20

unfoldable pub letter_alphabet : Bytes
letter_alphabet = codes "abcdefghjkmnpqrstuvwxyz"

unfoldable pub digit_alphabet : Bytes
digit_alphabet = codes "23456789"

unfoldable pub short_id_alphabet : Bytes
unfolding letter_alphabet digit_alphabet
short_id_alphabet = letter_alphabet ++ digit_alphabet

-- `strings.IndexByte(s, c) >= 0`
unfoldable pub has_byte : Bytes → ℕ → Bool
has_byte [] c = false
has_byte (x ∷ xs) c = x == c || has_byte xs c

unfoldable pub is_lower_alnum : ℕ → Bool
is_lower_alnum c = leb b'a' c && leb c b'z' || leb b'0' c && leb c b'9'

unfoldable pub is_short_id_char : ℕ → Bool
unfolding short_id_alphabet has_byte
is_short_id_char c = has_byte short_id_alphabet c

unfoldable pub is_short_id_letter : ℕ → Bool
unfolding letter_alphabet has_byte
is_short_id_letter c = has_byte letter_alphabet c

unfoldable pub is_scope_name : Bytes → Bool
is_scope_name s =
    if ltb (length s) 1 || ltb scope_name_max (length s) then false else all is_lower_alnum s

abbrev pub first_is_letter : Bytes → Bool
first_is_letter [] = false
first_is_letter (c ∷ _) = is_short_id_letter c

unfoldable pub is_short_id : Bytes → Bool
is_short_id s =
    if ltb (length s) short_id_min || ltb short_id_max (length s)
    then false
    else if not (first_is_letter s)
    then false
    else all is_short_id_char s

abbrev pub put_before : ℕ → Option (Bytes × Bytes) → Option (Bytes × Bytes)
put_before d none = none
put_before d (some (b, a)) = some (d ∷ b, a)

-- The text before and after the first '-'; `none` when there is no '-'.
unfoldable pub cut_hyphen : Bytes → Option (Bytes × Bytes)
cut_hyphen [] = none
cut_hyphen (c ∷ cs) = if c == b'-' then some ([], cs) else put_before c (cut_hyphen cs)

unfoldable pub is_full_ticket_id : Bytes → Bool
unfolding cut_hyphen has_byte
is_full_ticket_id s = elim (cut_hyphen s) [
  | none ↦ false
  | some (scope, short) ↦
      if has_byte short b'-' then false else is_scope_name scope && is_short_id short
]

unfoldable pub scope_of_full_id : Bytes → Bytes
unfolding cut_hyphen
scope_of_full_id s = elim (cut_hyphen s) [ none ↦ s | some (scope, short) ↦ scope ]

-- `strings.HasPrefix` and `strings.TrimPrefix`
unfoldable pub has_prefix : Bytes → Bytes → Bool
has_prefix s [] = true
has_prefix [] (p ∷ ps) = false
has_prefix (c ∷ cs) (p ∷ ps) = c == p && has_prefix cs ps

unfoldable pub trim_prefix : Bytes → Bytes → Bytes
unfolding has_prefix
trim_prefix s p = if has_prefix s p then drop (length p) s else s

unfoldable pub rewrite_prefix : Bytes → Bytes → Bytes → Bytes
unfolding is_full_ticket_id scope_of_full_id trim_prefix
rewrite_prefix full old_name new_name =
    if is_full_ticket_id full && bytes_eq (scope_of_full_id full) old_name
    then new_name ++ trim_prefix full old_name
    else full

pub data Form : Type 0 where
  form_full form_short : Form

unfoldable pub parse_arg : Bytes → Form × Bool
unfolding has_byte is_full_ticket_id is_short_id
parse_arg tok =
    if has_byte tok b'-' then (form_full, is_full_ticket_id tok) else (form_short, is_short_id tok)

-- A reading step: a value and the bytes that are left.
abbrev pub Reader : Type 0 → Type 0
Reader A = Bytes → Option (A × Bytes)

infixl 5 ◌>>=◌
abbrev pub ◌>>=◌ : {A B : Type 0} → Reader A → (A → Reader B) → Reader B
◌>>=◌ m f r = elim (m r) [ none ↦ none | some (a, r') ↦ f a r' ]

abbrev pub return : {A : Type 0} → A → Reader A
return a r = some (a, r)

-- `byteReader.uniform`: a byte at or past the last multiple of `n` is drawn again.
unfoldable pub uniform : ℕ → Reader ℕ
uniform n [] = none
uniform n (b ∷ bs) = if ltb b (256 - 256 % n) then some (b % n, bs) else uniform n bs

-- One pass of the loop in `Mint`.
unfoldable pub mint_next : Reader ℕ
unfolding uniform letter_alphabet digit_alphabet
mint_next = do
  coin ← uniform 2
  n ← uniform (if coin == 0 then 23 else 8)
  return (get_or (if coin == 0 then letter_alphabet else digit_alphabet) n 0)

unfoldable pub mint : Reader Bytes
unfolding mint_next
mint = do
  first ← uniform 23
  a ← mint_next
  b ← mint_next
  c ← mint_next
  return (get_or letter_alphabet first 0 ∷ a ∷ b ∷ c ∷ [])

-- `incOdometer`, from the last digit to the first; the flag is its result.
pub inc_digit : ℕ → Bool × List ℕ → Bool × List ℕ
inc_digit d (stopped, ds) =
    if stopped
    then (true, d ∷ ds)
    else if ltb (d + 1) 31
    then (true, (d + 1) ∷ ds)
    else (false, 0 ∷ ds)

unfoldable pub inc_odometer : List ℕ → Bool × List ℕ
unfolding inc_digit
inc_odometer [] = (false, [])
inc_odometer (d ∷ ds) = inc_digit d (inc_odometer ds)

unfoldable pub candidate : Bytes → List ℕ → Bytes
candidate prefix odometer = prefix ++ map (λ d. get_or short_id_alphabet d 0) odometer

pub data Search : Type 0 where
  found : Bytes → Search
  all_taken out_of_fuel : Search

-- The inner loop of `Extend`, on fuel.
unfoldable pub search_length : ℕ → Bytes → List Bytes → List ℕ → Search
unfolding candidate contains inc_odometer
search_length zero prefix occupied odometer = out_of_fuel
search_length (suc f) prefix occupied odometer =
    let next = inc_odometer odometer in
    let rest = search_length f prefix occupied next.1 in
    if not (contains occupied (candidate prefix odometer))
    then found (candidate prefix odometer)
    else if next.0
    then rest
    else all_taken

-- How many odometers of `k` digits there are.
unfoldable pub odometers : ℕ → ℕ
odometers zero = 1
odometers (suc k) = 31 * odometers k

-- The outer loop: `rounds` lengths are left, the next with `k` characters more than the prefix.
unfoldable pub extend_lengths : ℕ → ℕ → Bytes → List Bytes → Option Bytes
unfolding search_length odometers
extend_lengths zero k prefix occupied = none
extend_lengths (suc rounds) k prefix occupied =
    elim (search_length (odometers k) prefix occupied (replicate k 0)) [
      | found c ↦ some c
      | all_taken ↦ extend_lengths rounds (suc k) prefix occupied
      | out_of_fuel ↦ none
    ]

-- `Extend`; `none` is its error.
unfoldable pub extend : Bytes → List Bytes → Option Bytes
unfolding extend_lengths
extend prefix occupied =
    if is_short_id prefix
    then extend_lengths (short_id_max - length prefix) 1 prefix occupied
    else none

unfoldable pub short_in_family : Bytes → Bytes → Bool
short_in_family short base = is_short_id short && is_short_id base && has_prefix short base

unfoldable pub blocked_letter_runs : List Bytes
blocked_letter_runs = map codes (
    "anus" ∷ "arse" ∷ "ass" ∷ "cunt" ∷ "cum" ∷ "dyk" ∷ "dyke" ∷ "fag" ∷ "fuck" ∷ "fuk" ∷ "gash"
    ∷ "puss" ∷ "rape" ∷ "shag" ∷ "twat" ∷ "wank" ∷ [])

abbrev pub is_decimal : ℕ → Bool
is_decimal c = leb b'0' c && leb c b'9'

-- The loop of `MintBlocked`; `letters` is the buffer of eight bytes, `none` the early return.
unfoldable pub strip_digits : Bytes → Bytes → Option Bytes
strip_digits letters [] = some letters
strip_digits letters (c ∷ cs) =
    let skip = strip_digits letters cs in
    let keep = strip_digits (letters ++ c ∷ []) cs in
    if is_decimal c then skip else if length letters == 8 then none else keep

unfoldable pub mint_blocked : Bytes → Bool
unfolding strip_digits blocked_letter_runs
mint_blocked s = elim (strip_digits [] s) [
  | none ↦ false
  | some run ↦ contains blocked_letter_runs run
]
