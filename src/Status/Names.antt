-- ===== src/Status/Names.antt =====
-- The lists of status names agree with the predicates on a single name.
use tk.Prelude.{
  Bool, true, false, ◌&&◌, ◌||◌, not, Option, none, some, List, [], ◌∷◌, Bytes, ◌≡◌, refl, arith,
  bytes_eq, bytes_eq_iff, bytes_eq_refl, lookup-absent, bytes_lt, lookup, has_key, contains,
  contains-append, contains-sort_by, Bool-cases, Option-cases, inl, inr, ◌∙◌, sym, ap, ap₂,
}
use tk.Status.{
  Category, Builtin, Customs, builtins, builtin_order, is_builtin, category_of, is_known,
  is_terminal, is_next_eligible, in_default_list, is_active, is_done, builtin_names, custom_names,
  names_where, default_list_names, non_terminal_names, terminal_names, todo,
}

-- The custom statuses of a scope: no name twice, and no built-in name.
abbrev pub IsCustomMap : Customs → Type 0
IsCustomMap [] = Unit
IsCustomMap ((n, c) ∷ m) = (is_builtin n ≡ false) × (has_key n m ≡ false) × IsCustomMap m

abbrev kept : (Category → Bool) → Option Category → Bool
kept keep none = false
kept keep (some c) = keep c

abbrev category : Option Builtin → Option Category
category none = none
category (some b) = some b.category

contains-builtin_names :
    (keep : Category → Bool) (ns : List Bytes) (name : Bytes)
    → contains (builtin_names keep ns) name
      ≡ (contains ns name && kept keep (category (lookup name builtins)))
unfolding contains builtin_names
contains-builtin_names keep [] name = refl
contains-builtin_names keep (n ∷ ns) name = elim (Bool-cases (bytes_eq n name)) [
  | inl e ↦
      rw ((bytes_eq_iff n name).0 e)
        (ground (arith, contains-builtin_names keep ns name, bytes_eq_refl name))
  | inr e ↦ ground (arith, contains-builtin_names keep ns name)
]

contains-custom_names :
    (keep : Category → Bool) (m : Customs) (name : Bytes)
    → IsCustomMap m
    → contains (custom_names keep m) name ≡ kept keep (lookup name m)
unfolding contains custom_names lookup
contains-custom_names keep [] name w = refl
contains-custom_names keep ((n, c) ∷ m) name (_, fresh, w) = elim (Bool-cases (bytes_eq n name)) [
  | inr e ↦ ground (arith, contains-custom_names keep m name w)
  | inl e ↦
      let same : n ≡ name = (bytes_eq_iff n name).0 e in
      let absent : kept keep (lookup name m) ≡ false =
        ap (kept keep) (lookup-absent name m (rw same at fresh)) in
      ground (arith, contains-custom_names keep m name w)
]

-- The order and the table of the built-in statuses name the same nine.
contains-builtin_order : (name : Bytes) → contains builtin_order name ≡ is_builtin name
unfolding contains builtin_order is_builtin lookup
contains-builtin_order name = ground arith

lookup-custom_builtin :
    (m : Customs) (name : Bytes) → IsCustomMap m → is_builtin name ≡ true → lookup name m ≡ none
unfolding lookup
lookup-custom_builtin [] name w b = refl
lookup-custom_builtin ((n, c) ∷ m) name (other, _, w) b = elim (Bool-cases (bytes_eq n name)) [
  | inl e ↦ absurd (
      let same : n ≡ name = (bytes_eq_iff n name).0 e in
      let b' : is_builtin name ≡ false = rw same at other in ground arith)
  | inr e ↦ rw e (lookup-custom_builtin m name w b)
]

contains-names_where :
    (custom : Customs) (keep : Category → Bool) (name : Bytes)
    → IsCustomMap custom
    → contains (names_where custom keep) name ≡ (
        (is_builtin name && kept keep (category (lookup name builtins)))
        || kept keep (lookup name custom))
unfolding names_where
contains-names_where custom keep name w =
    contains-append (builtin_names keep builtin_order) _ name
    ∙ ap₂ (λ p q. p || q)
        (contains-builtin_names keep builtin_order name
          ∙ ap (λ p. p && kept keep (category (lookup name builtins)))
              (contains-builtin_order name))
        (contains-sort_by bytes_lt (custom_names keep custom) name
          ∙ contains-custom_names keep custom name w)

-- The names that `namesWhere` returns are those whose category passes the test.
pub names_where-kept :
    (custom : Customs) (keep : Category → Bool) (name : Bytes)
    → IsCustomMap custom
    → contains (names_where custom keep) name ≡ kept keep (category_of name custom)
unfolding category_of is_builtin
names_where-kept custom keep name w = elim (Option-cases (lookup name builtins)) [
  | inl e ↦ contains-names_where custom keep name w ∙ rw (is_builtin, category_of, e) refl
  | inr (b, e) ↦
      let absent = lookup-custom_builtin custom name w (rw (is_builtin, e) refl) in
      contains-names_where custom keep name w
      ∙ rw (is_builtin, category_of, e, absent) (ground arith)
]

kept_active :
    (o : Option Category) → elim o [ none ↦ false | some c ↦ is_active c ] ≡ kept is_active o
kept_active none = refl
kept_active (some c) = refl

kept-not :
    (o : Option Category)
    → kept (λ c. not (is_done c)) o ≡ (kept (λ c. true) o && not (kept is_done o))
kept-not none = refl
kept-not (some c) = ground arith

listed_active :
    (name : Bytes) (b : Builtin)
    → lookup name builtins ≡ some b
    → b.in_default ≡ is_active b.category
unfolding lookup builtins
listed_active name b e = ground arith

-- A status appears in the default list exactly when `DefaultListNames` has its name.
pub in_default_list-names :
    (name : Bytes) (custom : Customs)
    → IsCustomMap custom
    → in_default_list name custom ≡ contains (default_list_names custom) name
unfolding in_default_list default_list_names category_of
in_default_list-names name custom w =
    let listed = names_where-kept custom is_active name w in
    elim (Option-cases (lookup name builtins)) [
      | inl e ↦
          let r : contains (names_where custom is_active) name
              ≡ kept is_active (lookup name custom) =
            listed ∙ rw (category_of, e) refl in
          rw (e, in_default_list) (kept_active (lookup name custom) ∙ sym r)
      | inr (b, e) ↦
          let r : contains (names_where custom is_active) name ≡ is_active b.category =
            listed ∙ rw (category_of, e) refl in
          rw (e, in_default_list) (listed_active name b e ∙ sym r)
    ]

-- Of the known statuses, exactly those of category done are in `TerminalNames`, and exactly the others
-- in `NonTerminalNames`; an unknown status is in neither list and is not terminal.
pub terminal_names-split :
    (name : Bytes) (custom : Customs)
    → IsCustomMap custom
    → (contains (terminal_names custom) name ≡ is_terminal name custom)
      × (contains (non_terminal_names custom) name
          ≡ (is_known name custom && not (is_terminal name custom)))
unfolding terminal_names non_terminal_names is_terminal is_known
terminal_names-split name custom w = (
  names_where-kept custom is_done name w ∙ refl,
  names_where-kept custom (λ c. not (is_done c)) name w ∙ kept-not (category_of name custom),
)

-- Only `todo` is next-eligible. It is in the default list and not terminal, whatever a scope declares.
pub is_next_eligible-todo :
    (name : Bytes) (custom : Customs)
    → is_next_eligible name ≡ true
    → (name ≡ todo) × (in_default_list name custom ≡ true) × (is_terminal name custom ≡ false)
unfolding is_next_eligible in_default_list is_terminal lookup
is_next_eligible-todo name custom h =
    let t : name ≡ todo = ground (arith, bytes_eq_iff todo name) in
    (t, rw t (unfold bytes_eq in refl), rw t (unfold bytes_eq in refl))
