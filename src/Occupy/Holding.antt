-- ===== src/Occupy/Holding.antt =====
-- internal/scopefile/occupy.go: the map from a short-id to a path that holds it.
use tk.Prelude.{
  true, false, Option, none, some, [], ◌∷◌, Bytes, ◌≡◌, refl, map, bytes_eq, bytes_eq_iff, bytes_lt,
  bytes_lt_irrefl, bytes_lt_asymm, bytes_lt_gap, contains, lookup, Bool-cases, inl, inr,
  if◌then◌else◌,
}
use tk.Occupy.{Paths, hold, hold_name}

-- The map has the short-id, with a path that is not after the one given.
pub data Held (out : Paths) (short path : Bytes) : Type 0 where
  held : (p : Bytes) → lookup short out ≡ some p → bytes_lt path p ≡ false → Held out short path

least :
    (q prev path : Bytes)
    → bytes_lt q prev ≡ false
    → bytes_lt q (if bytes_lt path prev then path else prev) ≡ false
least q prev path h = elim (Bool-cases (bytes_lt path prev)) [
  | inl e ↦ rw e (bytes_lt_gap q prev path h (bytes_lt_asymm path prev e))
  | inr e ↦ rw e h
]

least_self : (prev path : Bytes) → bytes_lt path (if bytes_lt path prev then path else prev) ≡ false
least_self prev path = elim (Bool-cases (bytes_lt path prev)) [
  | inl e ↦ rw e (bytes_lt_irrefl path)
  | inr e ↦ rw e e
]

pub hold-Held : (out : Paths) (short path : Bytes) → Held (hold out short path) short path
unfolding hold lookup
hold-Held [] short path =
    held path (rw ((bytes_eq_iff short short).1 refl) refl) (bytes_lt_irrefl path)
hold-Held ((k, prev) ∷ out) short path = elim (Bool-cases (bytes_eq k short)) [
  | inl e ↦ held (if bytes_lt path prev then path else prev) (rw (e, e) refl) (least_self prev path)
  | inr e ↦ elim (hold-Held out short path) [ held p f l ↦ held p (rw (e, e) f) l ]
]

pub hold-keeps :
    (out : Paths) (short path : Bytes) {s q : Bytes} → Held out s q → Held (hold out short path) s q
unfolding hold lookup
hold-keeps [] short path (held p f l) = absurd cc
hold-keeps ((k, prev) ∷ out) short path {s} {q} (held p f l) =
    elim (Bool-cases (bytes_eq k short)) [
      | inl e ↦ elim (Bool-cases (bytes_eq k s)) [
        | inl g ↦
            let x = rw g at f in
            let same : prev ≡ p = cc in
            held (if bytes_lt path prev then path else prev) (rw (e, g) refl)
              (least q prev path (rw same l))
        | inr g ↦ let x = rw g at f in held p (rw (e, g) x) l
      ]
      | inr e ↦ elim (Bool-cases (bytes_eq k s)) [
        | inl g ↦ held p (rw (e, g) (rw g at f)) l
        | inr g ↦
            let rest : Held (hold out short path) s q =
              hold-keeps out short path (held p (rw g at f) l) in
            elim rest [ held p' f' l' ↦ held p' (rw (e, g) f') l' ]
      ]
    ]

pub hold_name-keeps :
    (out : Paths) (path : Bytes) (o : Option Bytes) {s q : Bytes}
    → Held out s q
    → Held (hold_name out path o) s q
hold_name-keeps out path none h = h
hold_name-keeps out path (some short) h = hold-keeps out short path h

pub contains-keys :
    (s : Bytes) (out : Paths) {p : Bytes}
    → lookup s out ≡ some p
    → contains (map (λ (q : Bytes × Bytes). q.0) out) s ≡ true
unfolding contains lookup
contains-keys s [] h = absurd cc
contains-keys s ((k, prev) ∷ out) h = elim (Bool-cases (bytes_eq k s)) [
  | inl e ↦ rw e refl
  | inr e ↦ rw e (contains-keys s out (rw e at h))
]
