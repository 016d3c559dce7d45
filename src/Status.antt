-- ===== src/Status.antt =====
-- internal/status/status.go: the built-in statuses, the categories, and the predicates of the board.
-- A custom map is an association list; `category_other` is any other value of the string type.
pub mod Names
mod Examples
use tk.Prelude.{
  ℕ, Bool, true, false, ◌&&◌, not, Option, none, some, List, [], ◌∷◌, ◌++◌, Bytes, codes, bytes_lt,
  lookup, sort_by, if◌then◌else◌, all,
}

pub data Category : Type 0 where
  category_active category_backlog category_done : Category
  category_other : Bytes → Category

abbrev pub draft : Bytes
draft = codes "draft"

abbrev pub triaged : Bytes
triaged = codes "triaged"

abbrev pub backlog : Bytes
backlog = codes "backlog"

abbrev pub todo : Bytes
todo = codes "todo"

abbrev pub in_progress : Bytes
in_progress = codes "in-progress"

abbrev pub review : Bytes
review = codes "review"

abbrev pub blocked : Bytes
blocked = codes "blocked"

abbrev pub done : Bytes
done = codes "done"

abbrev pub cancelled : Bytes
cancelled = codes "cancelled"

pub record Builtin : Type 0 where
  pub category : Category
  pub in_default : Bool
  pub eligible : Bool

abbrev pub builtin : Category → Bool → Bool → Builtin
builtin c d n = record { category = c; in_default = d; eligible = n }

pub builtins : List (Bytes × Builtin)
builtins =
    (draft, builtin category_active true false)
    ∷ (triaged, builtin category_active true false)
    ∷ (backlog, builtin category_backlog false false)
    ∷ (todo, builtin category_active true true)
    ∷ (in_progress, builtin category_active true false)
    ∷ (review, builtin category_active true false)
    ∷ (blocked, builtin category_active true false)
    ∷ (done, builtin category_done false false)
    ∷ (cancelled, builtin category_done false false)
    ∷ []

unfoldable pub builtin_order : List Bytes
builtin_order =
    draft ∷ triaged ∷ backlog ∷ todo ∷ in_progress ∷ review ∷ blocked ∷ done ∷ cancelled ∷ []

-- A `map[string]Category`.
abbrev pub Customs : Type 0
Customs = List (Bytes × Category)

unfoldable pub is_builtin : Bytes → Bool
unfolding builtins
is_builtin name = elim (lookup name builtins) [ none ↦ false | some b ↦ true ]

unfoldable pub valid_category : Category → Bool
valid_category (category_other s) = false
valid_category c = true

unfoldable pub category_of : Bytes → Customs → Option Category
unfolding builtins
category_of name custom = elim (lookup name builtins) [
  | none ↦ lookup name custom
  | some b ↦ some b.category
]

unfoldable pub is_known : Bytes → Customs → Bool
unfolding category_of
is_known name custom = elim (category_of name custom) [ none ↦ false | some c ↦ true ]

abbrev pub is_done : Category → Bool
is_done category_done = true
is_done c = false

abbrev pub is_active : Category → Bool
is_active category_active = true
is_active c = false

unfoldable pub is_terminal : Bytes → Customs → Bool
unfolding category_of
is_terminal name custom = elim (category_of name custom) [ none ↦ false | some c ↦ is_done c ]

unfoldable pub all_terminal : List Bytes → Customs → Bool
unfolding is_terminal
all_terminal [] custom = false
all_terminal (n ∷ ns) custom = all (λ m. is_terminal m custom) (n ∷ ns)

unfoldable pub is_next_eligible : Bytes → Bool
unfolding builtins
is_next_eligible name = elim (lookup name builtins) [ none ↦ false | some b ↦ b.eligible ]

unfoldable pub in_default_list : Bytes → Customs → Bool
unfolding builtins
in_default_list name custom = elim (lookup name builtins) [
  | some b ↦ b.in_default
  | none ↦ elim (lookup name custom) [ none ↦ false | some c ↦ is_active c ]
]

-- The two loops of `namesWhere`; every name of `builtinOrder` is in the table.
pub builtin_names : (Category → Bool) → List Bytes → List Bytes
unfolding builtins
builtin_names keep [] = []
builtin_names keep (n ∷ ns) =
    if elim (lookup n builtins) [ none ↦ false | some b ↦ keep b.category ]
    then n ∷ builtin_names keep ns
    else builtin_names keep ns

pub custom_names : (Category → Bool) → Customs → List Bytes
custom_names keep [] = []
custom_names keep ((n, c) ∷ m) = if keep c then n ∷ custom_names keep m else custom_names keep m

unfoldable pub names_where : Customs → (Category → Bool) → List Bytes
unfolding builtin_names custom_names builtin_order
names_where custom keep =
    builtin_names keep builtin_order ++ sort_by bytes_lt (custom_names keep custom)

pub default_list_names : Customs → List Bytes
default_list_names custom = names_where custom is_active

pub non_terminal_names : Customs → List Bytes
non_terminal_names custom = names_where custom (λ c. not (is_done c))

pub terminal_names : Customs → List Bytes
terminal_names custom = names_where custom is_done
