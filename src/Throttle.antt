-- ===== src/Throttle.antt =====
-- internal/tkv/throttle.go: the one counter of failed logins.
-- Times are in nanoseconds; the mutex makes each call one step.
mod Backoff
mod Examples
use tk.Prelude.{ℕ, suc, ◌+◌, ◌-◌, ◌*◌, ◌^◌, Bool, true, false, ltb, ◌==◌, min, if◌then◌else◌}

abbrev pub backoff_base : ℕ
backoff_base = 250000000

abbrev pub backoff_cap : ℕ
backoff_cap = 5000000000

abbrev pub in_flight_retry : ℕ
in_flight_retry = 1000000000

pub record LoginThrottle : Type 0 where
  pub failures : ℕ
  pub in_flight : Bool
  pub until : ℕ

unfoldable pub new_login_throttle : LoginThrottle
new_login_throttle = record { failures = 0; in_flight = false; until = 0 }

-- A shift by `n - 1` is a product by a power of two, which n at most 6 keeps small.
unfoldable pub backoff : ℕ → ℕ
backoff n =
    if n == 0
    then 0
    else if ltb 6 n
    then backoff_cap
    else min (backoff_base * 2 ^ (n - 1)) backoff_cap

pub record Admission : Type 0 where
  pub ok : Bool
  pub wait : ℕ
  pub after : LoginThrottle

unfoldable pub admit : ℕ → LoginThrottle → Admission
admit now t =
    if t.in_flight
    then record { ok = false; wait = in_flight_retry; after = t }
    else if ltb now t.until
    then record { ok = false; wait = t.until - now; after = t }
    else record {
      ok = true;
      wait = 0;
      after = record t { in_flight = true; failures = t.failures + 1 };
    }

unfoldable pub finish : ℕ → Bool → LoginThrottle → LoginThrottle
unfolding backoff
finish now success t =
    if success
    then record { failures = 0; in_flight = false; until = 0 }
    else record t { in_flight = false; until = now + backoff t.failures }
