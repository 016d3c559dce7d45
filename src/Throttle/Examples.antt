-- ===== src/Throttle/Examples.antt =====
-- Runs of internal/tkv/throttle.go.
use tk.Prelude.{◌*◌, ◌^◌, true, ◌≡◌, min}
use tk.Throttle.{LoginThrottle, backoff, backoff_base, backoff_cap}
use tk.Throttle.Backoff.{backoff-min}

backoff-min_example : backoff 8 ≡ min (backoff_base * 2 ^ 7) backoff_cap
backoff-min_example = backoff-min 7

abbrev tried : LoginThrottle
tried = record { failures = 2; in_flight = true; until = 0 }
