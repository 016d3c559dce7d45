-- ===== src/Order.antt =====
-- internal/order/order.go: fractional-index rank keys. A key is a list of bytes, and `none` stands for
-- the -1 of the index tables. `midpoint` and the functions below it are reached from `key_between`
-- with bytes of the digit alphabet only, where `digit_value` is the table's entry.
mod Digits
mod Midpoint
mod Integers
mod Heads
mod Parts
mod Unroll
mod Cases
mod Examples
pub mod Between
pub mod Accepted
use tk.Prelude.{
  ℕ, suc, ◌+◌, ◌-◌, ◌/◌, Bool, true, false, ◌&&◌, Option, none, some, [], ◌∷◌, ◌++◌, Bytes, codes,
  bytes_eq, bytes_lt, length, take, drop, replicate, all, get_or, ltb, leb, ◌==◌, if◌then◌else◌,
}

unfoldable pub digits_alphabet : Bytes
digits_alphabet = codes "0123456789ABCDEFGHIJKLMNOPQRSTUVWXYZabcdefghijklmnopqrstuvwxyz"

unfoldable pub int_digits_alphabet : Bytes
int_digits_alphabet = codes "ABCDEFGHIJKLMNOPQRSTUVWXYZabcdefghijklmnopqrstuvwxyz"

-- `IntegerZero`
abbrev pub integer_zero : Bytes
integer_zero = codes "a0"

-- `SmallestInteger`: the first head and half an alphabet of zeros.
unfoldable pub smallest_integer : Bytes
smallest_integer = b'A' ∷ replicate 26 b'0'

pub data Error : Type 0 where
  invalid_key equal_keys unordered_bounds exhausted : Error

pub data Result (A : Type 0) : Type 0 where
  ok : A → Result A
  err : Error → Result A

abbrev pub suc_index : Option ℕ → Option ℕ
suc_index none = none
suc_index (some i) = some (suc i)

-- The tables that `init` fills: the position of a byte in an alphabet.
unfoldable pub index_of : ℕ → Bytes → Option ℕ
index_of c [] = none
index_of c (x ∷ xs) = if x == c then some 0 else suc_index (index_of c xs)

unfoldable pub digit_index : ℕ → Option ℕ
digit_index c = index_of c digits_alphabet

unfoldable pub int_digit_index : ℕ → Option ℕ
int_digit_index c = index_of c int_digits_alphabet

abbrev pub is_some : Option ℕ → Bool
is_some none = false
is_some (some _) = true

-- `digitIndex[c] >= 0`
abbrev pub is_digit : ℕ → Bool
is_digit c = is_some (digit_index c)

-- `digitIndex[c]` and `intDigitIndex[c]` of a byte that is in the alphabet.
unfoldable pub digit_value : ℕ → ℕ
digit_value c = elim (digit_index c) [ none ↦ 0 | some i ↦ i ]

unfoldable pub head_value : ℕ → ℕ
head_value c = elim (int_digit_index c) [ none ↦ 0 | some i ↦ i ]

-- `digitsAlphabet[d]` and `intDigitsAlphabet[d]`
unfoldable pub digit : ℕ → ℕ
digit d = get_or digits_alphabet d 0

pub head : ℕ → ℕ
head d = get_or int_digits_alphabet d 0

-- The second branch is `i - half + 2`.
unfoldable pub length_of_index : ℕ → ℕ
length_of_index i = if ltb i 26 then 26 - i + 1 else i - 26 + 2

unfoldable pub integer_length : ℕ → Option ℕ
integer_length h = elim (int_digit_index h) [ none ↦ none | some i ↦ some (length_of_index i) ]

-- `len(frac) > 0 && frac[len(frac)-1] == digitsAlphabet[0]`
unfoldable pub ends_in_zero : Bytes → Bool
ends_in_zero [] = false
ends_in_zero (c ∷ []) = c == b'0'
ends_in_zero (c ∷ d ∷ ds) = ends_in_zero (d ∷ ds)

abbrev pub fraction_fits : Bytes → Option ℕ → Bool
fraction_fits key none = false
fraction_fits key (some n) =
    if ltb (length key) n then false else if ends_in_zero (drop n key) then false else true

-- `Valid`
unfoldable pub valid : Bytes → Bool
valid [] = false
valid (h ∷ t) = if all is_digit (h ∷ t) then fraction_fits (h ∷ t) (integer_length h) else false

-- `integerPart`; the empty key, where the code would panic, is never passed.
unfoldable pub integer_part : Bytes → Bytes
integer_part [] = []
integer_part (h ∷ t) = elim (integer_length h) [ none ↦ [] | some n ↦ take n (h ∷ t) ]

-- `sliceFrom`
pub slice_from : Bytes → ℕ → Bytes
slice_from s n = if leb (length s) n then [] else drop n s

-- The first digit, with the value that stands for an absent one.
unfoldable pub first_value : ℕ → Bytes → ℕ
first_value d [] = d
first_value d (c ∷ _) = digit_value c

-- What `midpoint` does once no common prefix is left; `rest` is `midpoint(sliceFrom(a, 1), "")`.
-- `math.Round(0.5 * float64(digitA+digitB))` rounds the half up.
unfoldable pub midpoint_at : Bytes → Bytes → Bytes → Bytes
midpoint_at a b rest =
    let digit_a = first_value 0 a in
    let digit_b = first_value 62 b in
    if ltb 1 (digit_b - digit_a)
    then digit ((digit_a + digit_b + 1) / 2) ∷ []
    else if ltb 1 (length b)
    then take 1 b
    else digit digit_a ∷ rest

-- `midpoint(a, "")`. With `a` empty the digits are 0 and 62, and `rest` is not read.
pub midpoint_open : Bytes → Bytes
midpoint_open [] = midpoint_at [] [] []
midpoint_open (c ∷ cs) = midpoint_at (c ∷ cs) [] (midpoint_open cs)

-- `midpoint(a, b)`. The loop over the common prefix puts each digit of `b` that it passes before the
-- midpoint of what is left; an exhausted `a` is read as zeros.
pub midpoint : Bytes → Bytes → Bytes
midpoint a [] = midpoint_open a
midpoint [] (d ∷ ds) =
    if b'0' == d then d ∷ midpoint [] ds else midpoint_at [] (d ∷ ds) (midpoint_open [])
midpoint (c ∷ cs) (d ∷ ds) =
    if c == d then d ∷ midpoint cs ds else midpoint_at (c ∷ cs) (d ∷ ds) (midpoint_open cs)

-- The count `n` of the loop in `midpoint`, for the recursion as the code writes it.
pub common_prefix : Bytes → Bytes → ℕ
common_prefix a [] = 0
common_prefix [] (d ∷ ds) = if b'0' == d then suc (common_prefix [] ds) else 0
common_prefix (c ∷ cs) (d ∷ ds) = if c == d then suc (common_prefix cs ds) else 0

-- `widenHead`; the `trailing[1:]` of a shorter head is never taken of an empty run.
pub widen_head : ℕ → ℕ → Bytes → ℕ → Bytes
widen_head new_head old_head trailing pad =
    let new_len : ℕ = elim (integer_length new_head) [ none ↦ 0 | some n ↦ n ] in
    let old_len : ℕ = elim (integer_length old_head) [ none ↦ 0 | some n ↦ n ] in
    if ltb old_len new_len
    then new_head ∷ (trailing ++ (pad ∷ []))
    else if ltb new_len old_len
    then new_head ∷ drop 1 trailing
    else new_head ∷ trailing

-- The loops of `incrementInteger` and `decrementInteger` from the last digit to the first: the flag
-- says that the carry, or borrow, has passed all the digits.
unfoldable pub add_carry : ℕ → Bool × Bytes → Bool × Bytes
add_carry c (carry, ds) =
    if carry
    then (if digit_value c + 1 == 62
        then (true, b'0' ∷ ds)
        else (false, digit (digit_value c + 1) ∷ ds))
    else (false, c ∷ ds)

unfoldable pub increment_digits : Bytes → Bool × Bytes
increment_digits [] = (true, [])
increment_digits (c ∷ cs) = add_carry c (increment_digits cs)

pub sub_borrow : ℕ → Bool × Bytes → Bool × Bytes
sub_borrow c (borrow, ds) =
    if borrow
    then (if digit_value c == 0 then (true, b'z' ∷ ds) else (false, digit (digit_value c - 1) ∷ ds))
    else (false, c ∷ ds)

pub decrement_digits : Bytes → Bool × Bytes
decrement_digits [] = (true, [])
decrement_digits (c ∷ cs) = sub_borrow c (decrement_digits cs)

unfoldable pub widen_up : ℕ → Bool × Bytes → Option Bytes
widen_up h (carry, ds) =
    if carry
    then (if head_value h == 51
        then none
        else some (widen_head (head (head_value h + 1)) h ds b'0'))
    else some (h ∷ ds)

unfoldable pub increment_integer : Bytes → Option Bytes
increment_integer [] = none
increment_integer (h ∷ ds) = widen_up h (increment_digits ds)

pub widen_down : ℕ → Bool × Bytes → Option Bytes
widen_down h (borrow, ds) =
    if borrow
    then (if head_value h == 0 then none else some (widen_head (head (head_value h - 1)) h ds b'z'))
    else some (h ∷ ds)

pub decrement_integer : Bytes → Option Bytes
decrement_integer [] = none
decrement_integer (h ∷ ds) = widen_down h (decrement_digits ds)

-- `validateBound`, for a bound that is not open.
unfoldable pub validate_bound : Bytes → Option Error
validate_bound key =
    if valid key
    then (if bytes_eq key smallest_integer then some exhausted else none)
    else some invalid_key

-- `case a == ""`, from `b` and its two parts.
unfoldable pub before_parts : Bytes → Bytes → Bytes → Result Bytes
before_parts b ib fb =
    if bytes_eq ib smallest_integer
    then ok (ib ++ midpoint [] fb)
    else if bytes_lt ib b
    then ok ib
    else elim (decrement_integer ib) [ none ↦ err exhausted | some k ↦ ok k ]

-- `case b == ""`, from the two parts of `a`.
unfoldable pub after_parts : Bytes → Bytes → Result Bytes
after_parts ia fa = elim (increment_integer ia) [ none ↦ ok (ia ++ midpoint fa []) | some k ↦ ok k ]

-- The `default` case, from the parts of both bounds.
unfoldable pub amid_parts : Bytes → Bytes → Bytes → Bytes → Bytes → Result Bytes
amid_parts b ia fa ib fb =
    if bytes_eq ia ib then ok (ia ++ midpoint fa fb) else elim (increment_integer ia) [
      | none ↦ err exhausted
      | some k ↦ if bytes_lt k b then ok k else ok (ia ++ midpoint fa [])
    ]

-- `fa := a[len(ia):]`
abbrev pub fraction_part : Bytes → Bytes
fraction_part key = drop (length (integer_part key)) key

unfoldable pub check_open : Bytes → Option Error
check_open [] = none
check_open (c ∷ cs) = validate_bound (c ∷ cs)

-- The comparison of two bounds that are not open.
unfoldable pub check_pair : Bytes → Bytes → Option Error
check_pair [] b = none
check_pair a [] = none
check_pair a b =
    if bytes_eq a b then some equal_keys else if bytes_lt b a then some unordered_bounds else none

unfoldable pub dispatch : Bytes → Bytes → Result Bytes
dispatch [] [] = ok integer_zero
dispatch [] b = before_parts b (integer_part b) (fraction_part b)
dispatch a [] = after_parts (integer_part a) (fraction_part a)
dispatch a b = amid_parts b (integer_part a) (fraction_part a) (integer_part b) (fraction_part b)

abbrev pub or_else : Option Error → Result Bytes → Result Bytes
or_else (some e) r = err e
or_else none r = r

-- `KeyBetween`; the empty string is an open bound.
unfoldable pub key_between : Bytes → Bytes → Result Bytes
unfolding check_open check_pair dispatch before_parts after_parts amid_parts validate_bound
key_between a b =
    or_else (check_open a) (or_else (check_open b) (or_else (check_pair a b) (dispatch a b)))
