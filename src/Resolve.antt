-- ===== src/Resolve.antt =====
-- internal/resolve/resolve.go and internal/pathutil/pathutil.go: the scope of a command.
-- The parameter `canonical` resolves symbolic links, `read_name` reads the name in the tk.cue of a
-- directory (`none` is its error). The registry's map is a list, in the order of the loop over it.
mod Longest
mod Examples
use tk.Prelude.{
  ℕ, ◌+◌, Bool, true, false, ◌&&◌, ◌||◌, not, Option, none, some, List, [], ◌∷◌, ◌++◌, Bytes, codes,
  bytes_eq, lookup, length, ltb, ◌==◌, if◌then◌else◌,
}
use tk.Id.{has_prefix}

-- The fields of `registry.Entry` that are read here.
pub record Entry : Type 0 where
  pub root : Bytes
  pub dir : Bytes

abbrev pub Scopes : Type 0
Scopes = List (Bytes × Entry)

pub data Source : Type 0 where
  source_flag source_env source_cwd : Source

pub record Resolved : Type 0 where
  pub name : Bytes
  pub entry : Entry
  pub source : Source

-- The results of `Resolve`: a scope, or one of its errors.
pub data Outcome : Type 0 where
  resolved : Resolved → Outcome
  no_scope : Outcome
  unknown_scope : Bytes → Outcome
  drift : Bytes → Bytes → Outcome

pub record Options : Type 0 where
  pub scope_flag : Bytes
  pub env_scope : Bytes
  pub cwd : Bytes

unfoldable pub ends_in_slash : Bytes → Bool
ends_in_slash [] = false
ends_in_slash (c ∷ []) = c == b'/'
ends_in_slash (c ∷ d ∷ ds) = ends_in_slash (d ∷ ds)

-- `UnderOrEqual`, of canonical paths.
unfoldable pub under_canonical : Bytes → Bytes → Bool
unfolding ends_in_slash has_prefix
under_canonical child ancestor =
    if bytes_eq child ancestor
    then true
    else has_prefix child (if not (ends_in_slash ancestor) then ancestor ++ codes "/" else ancestor)

module _ (canonical : Bytes → Bytes) where
  unfoldable pub under_or_equal : Bytes → Bytes → Bool
  unfolding under_canonical
  under_or_equal child ancestor = under_canonical (canonical child) (canonical ancestor)

  unfoldable pub overlap : Bytes → Bytes → Bool
  unfolding under_or_equal
  overlap a b = under_or_equal a b || under_or_equal b a

  abbrev pub is_longer : Entry → Option (Bytes × Entry) → Bool
  is_longer e none = true
  is_longer e (some (n, best)) = ltb (length best.root) (length e.root)

  -- The loop of `longestPrefix`, with the best so far; `none` is the length -1.
  unfoldable pub longest_from : Bytes → Option (Bytes × Entry) → Scopes → Option (Bytes × Entry)
  unfolding under_or_equal
  longest_from cwd best [] = best
  longest_from cwd best ((name, entry) ∷ scopes) =
      if under_or_equal cwd entry.root && is_longer entry best
      then longest_from cwd (some (name, entry)) scopes
      else longest_from cwd best scopes

  unfoldable pub longest_prefix : Scopes → Bytes → Option (Bytes × Entry)
  unfolding longest_from
  longest_prefix scopes cwd = longest_from cwd none scopes

module _ (read_name : Bytes → Option Bytes) where
  unfoldable pub resolved_or_drift : Bytes → Entry → Source → Outcome
  resolved_or_drift name entry source = elim (read_name entry.dir) [
    | none ↦ resolved (record { name = name; entry = entry; source = source })
    | some cue_name ↦
        if not (bytes_eq cue_name name)
        then drift name cue_name
        else resolved (record { name = name; entry = entry; source = source })
  ]

  unfoldable pub resolve_named : Scopes → Bytes → Source → Outcome
  unfolding resolved_or_drift
  resolve_named scopes name source = elim (lookup name scopes) [
    | none ↦ unknown_scope name
    | some entry ↦ resolved_or_drift name entry source
  ]

  module _ (canonical : Bytes → Bytes) where
    unfoldable pub resolve : Scopes → Options → Outcome
    unfolding resolve_named longest_prefix
    resolve scopes opts =
        if not (bytes_eq opts.scope_flag [])
        then resolve_named scopes opts.scope_flag source_flag
        else if not (bytes_eq opts.env_scope [])
        then resolve_named scopes opts.env_scope source_env
        else elim (longest_prefix canonical scopes opts.cwd) [
          | none ↦ no_scope
          | some (name, entry) ↦ resolved_or_drift name entry source_cwd
        ]

-- `SuggestCodeRootWith`
unfoldable pub suggest_code_root_with : Bytes → Bytes → Bytes → Bool → Bytes
suggest_code_root_with dir root git_root in_repo =
    if bytes_eq root (if in_repo then git_root else dir) then [] else root
