-- ===== src/Collision.antt =====
-- internal/collision/collision.go: which of two files that claim one id is kept.
-- `time.Parse` by RFC3339 and SHA-256 are the parameters `parse_time` and `sum256`.
pub mod Strict
mod Examples
use tk.Prelude.{
  ℕ, Bool, true, false, not, Option, none, some, [], ◌∷◌, Bytes, bytes_eq, bytes_lt, ltb, ◌==◌,
  if◌then◌else◌,
}

pub record Member : Type 0 where
  pub created : Bytes
  pub basename : Bytes
  pub raw : Bytes
  pub path : Bytes

-- `parseInstant`
unfoldable pub parse_instant : (Bytes → Option ℕ) → Bytes → Option ℕ
parse_instant parse_time [] = none
parse_instant parse_time (c ∷ cs) = parse_time (c ∷ cs)

-- The comparisons behind the instants.
unfoldable pub keep_by_rest : (Bytes → Bytes) → Member → Member → Bool
keep_by_rest sum256 a b =
    if not (bytes_eq a.basename b.basename)
    then bytes_lt a.basename b.basename
    else if not (bytes_eq (sum256 a.raw) (sum256 b.raw))
    then bytes_lt (sum256 a.raw) (sum256 b.raw)
    else bytes_lt a.path b.path

-- A side whose instant is degraded is kept over one whose instant is not.
unfoldable pub keep_by_instant : Option ℕ → Option ℕ → Bool → Bool
keep_by_instant none none rest = rest
keep_by_instant none (some tb) rest = true
keep_by_instant (some ta) none rest = false
keep_by_instant (some ta) (some tb) rest = if not (ta == tb) then ltb ta tb else rest

module _ (parse_time : Bytes → Option ℕ) (sum256 : Bytes → Bytes) where
  unfoldable pub keep_before : Member → Member → Bool
  unfolding keep_by_rest keep_by_instant parse_instant
  keep_before a b =
      keep_by_instant (parse_instant parse_time a.created) (parse_instant parse_time b.created)
        (keep_by_rest sum256 a b)
