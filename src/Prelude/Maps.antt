-- ===== src/Prelude/Maps.antt =====
-- Sets and maps keyed by strings: membership in a list, and association lists.
use mathlib.Core.Path.{◌≡◌, refl}
use mathlib.Core.Bool.{Bool, true, false, ◌||◌}
use mathlib.Core.Option.{Option, none, some}
use mathlib.Core.List.{List, [], ◌∷◌, ◌++◌}
use native.Mathlib.Omega.{arith}
use tk.Prelude.Sort.{insert_by, sort_by}
use tk.Prelude.Strings.{Bytes, bytes_eq, bytes_eq_iff}
use tk.Prelude.Tests.{if◌then◌else◌}

-- A `map[string]bool` used as a set: the strings that were put in.
unfoldable pub contains : List Bytes → Bytes → Bool
contains [] a = false
contains (x ∷ xs) a = bytes_eq x a || contains xs a

-- `m[k]` with its `ok`.
unfoldable pub lookup {ℓ} : {V : Type ℓ} → Bytes → List (Bytes × V) → Option V
lookup k [] = none
lookup k ((j, v) ∷ m) = if bytes_eq j k then some v else lookup k m

unfoldable pub has_key {ℓ} : {V : Type ℓ} → Bytes → List (Bytes × V) → Bool
has_key k [] = false
has_key k ((j, v) ∷ m) = bytes_eq j k || has_key k m

pub contains-append :
    (xs ys : List Bytes) (a : Bytes) → contains (xs ++ ys) a ≡ (contains xs a || contains ys a)
unfolding contains
contains-append [] ys a = refl
contains-append (x ∷ xs) ys a = ground (arith, contains-append xs ys a)

contains-insert_by :
    (lt : Bytes → Bytes → Bool) (x : Bytes) (xs : List Bytes) (a : Bytes)
    → contains (insert_by lt x xs) a ≡ (bytes_eq x a || contains xs a)
unfolding contains insert_by
contains-insert_by lt x [] a = refl
contains-insert_by lt x (y ∷ ys) a = ground (arith, contains-insert_by lt x ys a)

-- Sorting keeps the members.
pub contains-sort_by :
    (lt : Bytes → Bytes → Bool) (xs : List Bytes) (a : Bytes)
    → contains (sort_by lt xs) a ≡ contains xs a
unfolding contains sort_by
contains-sort_by lt [] a = refl
contains-sort_by lt (x ∷ xs) a =
    ground (arith, contains-insert_by lt x (sort_by lt xs) a, contains-sort_by lt xs a)

pub contains-cases : (xs : List Bytes) (a : Bytes) → contains (a ∷ xs) a ≡ true
unfolding contains
contains-cases xs a = ground (arith, bytes_eq_iff a a)

pub lookup-absent {ℓ} :
    {V : Type ℓ} (k : Bytes) (m : List (Bytes × V)) → has_key k m ≡ false → lookup k m ≡ none
unfolding lookup has_key
lookup-absent k [] h = refl
lookup-absent k ((j, v) ∷ m) h = ground (arith, lookup-absent k m)
