-- ===== src/Throttle/Backoff.antt =====
-- internal/tkv/throttle.go: the wait after a failed login.
use tk.Prelude.{
  ℕ, zero, suc, ◌+◌, ◌-◌, ◌*◌, ◌^◌, ◌≤◌, ◌<◌, false, ◌≡◌, refl, arith, ltb, ◌==◌, min, Bool-cases,
  inl, inr, lt→ltb, ltb→lt,
}
use native.Mathlib.Numerals.{unary_clauses}
use tk.Throttle.{LoginThrottle, backoff, backoff_base, backoff_cap, admit, finish}

power_suc : (m : ℕ) → 2 ^ suc m ≡ 2 * 2 ^ m
power_suc m = simp unary_clauses (omega arith)

power_large : (k m : ℕ) → m ≡ k + 6 → 64 ≤ 2 ^ m
power_large zero m h = rw h (omega arith)
power_large (suc k) zero h = absurd (omega arith)
power_large (suc k) (suc m) h = omega (arith, power_suc m, power_large k m (omega arith))

-- The wait after the failure number n + 1 is 250 ms doubled n times, and 5 s at most, for every n: the
-- shortcut past the sixth failure changes nothing.
pub backoff-min : (n : ℕ) → backoff (suc n) ≡ min (backoff_base * 2 ^ n) backoff_cap
unfolding backoff
backoff-min n =
    let positive : (suc n == 0) ≡ false = ground arith in
    let before : suc n - 1 ≡ n = omega arith in
    elim (Bool-cases (ltb 6 (suc n))) [
      | inr e ↦ rw (positive, e, before) refl
      | inl e ↦
          let past : 6 < suc n = ltb→lt 6 (suc n) e in
          let large : 64 ≤ 2 ^ n = power_large (n - 6) n (omega arith) in
          let capped : backoff_cap ≡ min (backoff_base * 2 ^ n) backoff_cap = omega arith in
          rw (positive, e) capped
    ]

-- After a failed attempt no attempt is admitted before the backoff of the failures so far has passed; the
-- refusal gives the time that is left, and changes nothing.
pub admit-finish :
    (now later : ℕ) (t : LoginThrottle)
    → later < now + backoff t.failures
    → admit later (finish now false t)
      ≡ record { ok = false; wait = (now + backoff t.failures) - later; after = finish now false t }
unfolding admit finish
admit-finish now later t h = rw (lt→ltb later (now + backoff t.failures) h) refl
