-- ===== src/Order/Examples.antt =====
-- Keys at concrete bounds.
use tk.Prelude.{[], ◌≡◌, refl, codes, bytes_eq, bytes_lt}
use tk.Order.Between.{key_between-Between, key_between-Refused, Between, Refused}
use tk.Order.{
  digits_alphabet, int_digits_alphabet, smallest_integer, index_of, digit_index, int_digit_index,
  digit_value, head_value, digit, head, length_of_index, integer_length, ends_in_zero, valid,
  integer_part, first_value, midpoint_at, midpoint_open, midpoint, widen_head, add_carry,
  increment_digits, widen_up, increment_integer, sub_borrow, decrement_digits, widen_down,
  decrement_integer, exhausted, ok, key_between,
}

-- A key between two neighbours, one after the last two-digit key, and one before the first.
keys :
    (key_between (codes "a0") (codes "a1") ≡ ok (codes "a0V"))
    × (key_between (codes "az") [] ≡ ok (codes "b00"))
    × (key_between [] (codes "a0") ≡ ok (codes "Zz"))
    × (key_between (codes "Zz") (codes "a01") ≡ ok (codes "a0"))
unfolding key_between valid digit_index index_of digits_alphabet int_digits_alphabet integer_length
    int_digit_index length_of_index ends_in_zero integer_part midpoint midpoint_open midpoint_at
    first_value digit_value digit smallest_integer bytes_eq bytes_lt increment_integer
    decrement_integer increment_digits decrement_digits add_carry sub_borrow widen_up widen_down
    widen_head head head_value
keys = (refl, refl, refl, refl)

key_between-Between_example :
    Between (codes "a0") (codes "a1") (key_between (codes "a0") (codes "a1"))
unfolding valid digit_index index_of digits_alphabet int_digits_alphabet integer_length
    int_digit_index length_of_index ends_in_zero bytes_lt smallest_integer
key_between-Between_example =
    key_between-Between (codes "a0") (codes "a1") (refl, λ e. cc) (refl, λ e. cc) refl

key_between-Refused_example : Refused [] smallest_integer exhausted
unfolding key_between valid digit_index index_of digits_alphabet int_digits_alphabet integer_length
    int_digit_index length_of_index ends_in_zero bytes_eq smallest_integer
key_between-Refused_example = key_between-Refused [] smallest_integer refl
