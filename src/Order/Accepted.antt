-- ===== src/Order/Accepted.antt =====
-- internal/order/order.go: what every key that `KeyBetween` returns satisfies.
use tk.Prelude.{true, false, refl, [], Bytes, bytes_lt, ◌≡◌}
use tk.Order.{ok, valid, key_between}
use tk.Order.Between.{
  Under, key_between-Between, sound, invalid, smallest, found, ordered, unordered, compared,
  check_open-none,
}

pub valid-nil : valid [] ≡ false
unfolding valid
valid-nil = refl

-- A key that is returned is valid and stands between its bounds, whatever the bounds were.
pub key_between-ok :
    (a b : Bytes) {k : Bytes}
    → key_between a b ≡ ok k
    → (valid k ≡ true) × (bytes_lt a k ≡ true) × Under k b
unfolding key_between
key_between-ok a b {k} h = elim (found a) [
  | invalid c ne bad ↦ absurd (let x = rw c at h in cc)
  | smallest c least ↦ absurd (let x = rw c at h in cc)
  | sound ha ↦ elim (found b) [
    | invalid c ne bad ↦ absurd (let x = rw (check_open-none a ha, c) at h in cc)
    | smallest c least ↦ absurd (let x = rw (check_open-none a ha, c) at h in cc)
    | sound hb ↦ elim (compared a b) [
      | unordered d c r ↦
          absurd (let x = rw (check_open-none a ha, check_open-none b hb, c) at h in cc)
      | ordered o ↦
          let (j, e, v, up, down) = key_between-Between a b ha hb o in
          let same : k ≡ j = cc in rw same (v, up, down)
    ]
  ]
]
