-- ===== src/Placement/Appended.antt =====
-- internal/writeengine/session.go: a key after every ticket of the board.
use tk.Prelude.{
  Bool, true, false, not, ◌&&◌, ◌||◌, List, [], ◌∷◌, Bytes, ◌≡◌, refl, sym, ◌∙◌, arith, bytes_eq,
  bytes_eq_iff, bytes_lt, bytes_lt_gap, bytes_lt_irrefl, bytes_lt_asymm, bytes_lt-nil, ◌⊎◌, ◌≢◌,
  all-In, all-at, Bool-cases, inl, inr, all,
}
use tk.Order.{valid, key_between, ok, smallest_integer}
use tk.Order.Between.{IsBound, InOrder, key_between-Between}
use tk.Depgate.{Ticket}
use tk.Placement.{max_valid_from, max_valid_order}

abbrev pub counts : Ticket → Bool
counts p = not (p.parse_error || not (valid p.order_key))

-- No key that counts is above the best.
abbrev pub none_above : Bytes → List Ticket → Bool
none_above best = all (λ p. not (counts p && bytes_lt best p.order_key))

-- One round, by its three cases.
data Round (best : Bytes) (p : Ticket) (ps : List Ticket) : Type 0 where
  skips : counts p ≡ false → max_valid_from best (p ∷ ps) ≡ max_valid_from best ps → Round best p ps
  takes :
      bytes_lt p.order_key best ≡ false
      → valid p.order_key ≡ true
      → max_valid_from best (p ∷ ps) ≡ max_valid_from p.order_key ps
      → Round best p ps
  keeps :
      bytes_lt best p.order_key ≡ false
      → max_valid_from best (p ∷ ps) ≡ max_valid_from best ps
      → Round best p ps

round : (best : Bytes) (p : Ticket) (ps : List Ticket) → Round best p ps
unfolding max_valid_from
round best p ps = elim (Bool-cases (p.parse_error || not (valid p.order_key))) [
  | inl e ↦ skips (ground arith) (rw e refl)
  | inr e ↦ elim (Bool-cases (bytes_eq best [] || bytes_lt best p.order_key)) [
    | inl f ↦
        takes
          (ground (
            arith,
            bytes_eq_iff best [],
            bytes_lt-nil p.order_key,
            bytes_lt_asymm best p.order_key,
          ))
          (ground arith) (rw (e, f) refl)
    | inr f ↦ keeps (ground arith) (rw (e, f) refl)
  ]
]

max_valid_from-none_above :
    (best : Bytes) (rows : List Ticket) {m : Bytes}
    → max_valid_from best rows ≡ m
    → (bytes_lt m best ≡ false) × (none_above m rows ≡ true)
max_valid_from-none_above best [] {m} h =
    let same : m ≡ best = sym h ∙ unfold max_valid_from in refl in
    (rw same (bytes_lt_irrefl best), refl)
max_valid_from-none_above best (p ∷ ps) {m} h = elim (round best p ps) [
  | skips c e ↦ let (up, rest) = max_valid_from-none_above best ps (sym e ∙ h) in (up, rw c rest)
  | takes low v e ↦
      let (up, rest) = max_valid_from-none_above p.order_key ps (sym e ∙ h) in
      (bytes_lt_gap m p.order_key best up low, ground (arith, rest))
  | keeps low e ↦
      let (up, rest) = max_valid_from-none_above best ps (sym e ∙ h) in
      (up, ground (arith, rest, bytes_lt_gap m best p.order_key up low))
]

max_valid_from-IsBound :
    (best : Bytes) (rows : List Ticket)
    → (best ≡ []) ⊎ (valid best ≡ true)
    → (max_valid_from best rows ≡ []) ⊎ (valid (max_valid_from best rows) ≡ true)
max_valid_from-IsBound best [] h = unfold max_valid_from in h
max_valid_from-IsBound best (p ∷ ps) h = elim (round best p ps) [
  | skips c e ↦ rw e (max_valid_from-IsBound best ps h)
  | takes low v e ↦ rw e (max_valid_from-IsBound p.order_key ps (inr v))
  | keeps low e ↦ rw e (max_valid_from-IsBound best ps h)
]

to_bound : (m : Bytes) → (m ≡ []) ⊎ (valid m ≡ true) → m ≢ smallest_integer → IsBound m
to_bound [] h ne = tt
to_bound (c ∷ cs) (inl h) ne = absurd cc
to_bound (c ∷ cs) (inr h) ne = (h, ne)

open_right : (m : Bytes) → InOrder m []
open_right [] = tt
open_right (c ∷ cs) = tt

-- A new ticket can always be put last: unless the greatest valid key of the board is the smallest integer,
-- KeyBetween of that key and an open bound returns a valid key, and every ticket of the board with a
-- valid key that is not quarantined has a key below it.
pub max_valid_order-last :
    (rows : List Ticket)
    → max_valid_order rows ≢ smallest_integer
    → (k : Bytes) × (key_between (max_valid_order rows) [] ≡ ok k)
      × (valid k ≡ true)
      × (all (λ p. not (counts p) || bytes_lt p.order_key k) rows ≡ true)
unfolding max_valid_order
max_valid_order-last rows ne =
    let m : Bytes = max_valid_from [] rows in
    let bound = to_bound m (max_valid_from-IsBound [] rows (inl refl)) ne in
    let (k, e, v, up, down) = key_between-Between m [] bound tt (open_right m) in
    let (low, none_over) = max_valid_from-none_above [] rows refl in
    (
      k,
      e,
      v,
      all-In _ rows (λ p i.
          let over : not (counts p && bytes_lt m p.order_key) ≡ true =
            all-at _ rows p none_over i in
          ground (arith, over, up, bytes_lt_gap m p.order_key k)),
    )
