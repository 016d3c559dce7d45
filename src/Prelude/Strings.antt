-- ===== src/Prelude/Strings.antt =====
-- Go's strings as lists of bytes: literals, equality, and the byte-wise order of `<`.
use Prim.Native.Char.{code}
use Prim.Native.Nat.{ℕ, ◌<◌}
use Prim.Native.String.{String}
use mathlib.Core.Path.{◌≡◌, refl}
use mathlib.Core.Logic.{◌↔◌, ◌⊎◌, inl, inr}
use mathlib.Core.Bool.{Bool, true, false, ◌&&◌, ◌||◌}
use mathlib.Core.List.{List, [], ◌∷◌, ◌++◌}
use native.Mathlib.Omega.{arith}
use tk.Prelude.Tests.{ltb, ◌==◌, Bool-cases}

abbrev pub Bytes : Type 0
Bytes = List ℕ

-- The bytes of an ASCII literal.
abbrev pub codes : String → Bytes
codes String.[] = []
codes (String.◌∷◌ c s) = code c ∷ codes s

-- `==` on strings.
unfoldable pub bytes_eq : Bytes → Bytes → Bool
bytes_eq [] [] = true
bytes_eq [] (y ∷ ys) = false
bytes_eq (x ∷ xs) [] = false
bytes_eq (x ∷ xs) (y ∷ ys) = x == y && bytes_eq xs ys

-- `<` on strings.
unfoldable pub bytes_lt : Bytes → Bytes → Bool
bytes_lt [] [] = false
bytes_lt [] (y ∷ ys) = true
bytes_lt (x ∷ xs) [] = false
bytes_lt (x ∷ xs) (y ∷ ys) = ltb x y || (x == y && bytes_lt xs ys)

pub bytes_eq_iff : (a b : Bytes) → (bytes_eq a b ≡ true) ↔ (a ≡ b)
unfolding bytes_eq
bytes_eq_iff [] [] = ground arith
bytes_eq_iff [] (y ∷ b) = ground arith
bytes_eq_iff (x ∷ a) [] = ground arith
bytes_eq_iff (x ∷ a) (y ∷ b) = ground (arith, bytes_eq_iff a b)

pub bytes_eq_refl : (a : Bytes) → bytes_eq a a ≡ true
bytes_eq_refl a = (bytes_eq_iff a a).1 refl

pub bytes_lt_irrefl : (a : Bytes) → bytes_lt a a ≡ false
unfolding bytes_lt
bytes_lt_irrefl [] = refl
bytes_lt_irrefl (x ∷ a) = ground (arith, bytes_lt_irrefl a)

pub bytes_lt_trans :
    (a b c : Bytes) → bytes_lt a b ≡ true → bytes_lt b c ≡ true → bytes_lt a c ≡ true
unfolding bytes_lt
bytes_lt_trans [] [] c h k = absurd (ground arith)
bytes_lt_trans [] (y ∷ b) [] h k = absurd (ground arith)
bytes_lt_trans [] (y ∷ b) (z ∷ c) h k = refl
bytes_lt_trans (x ∷ a) [] c h k = absurd (ground arith)
bytes_lt_trans (x ∷ a) (y ∷ b) [] h k = absurd (ground arith)
bytes_lt_trans (x ∷ a) (y ∷ b) (z ∷ c) h k = ground (arith, bytes_lt_trans a b c)

-- The order is total: two strings are equal, or one sorts first.
pub bytes_lt_total : (a b : Bytes) → bytes_lt a b ≡ false → bytes_lt b a ≡ false → a ≡ b
unfolding bytes_lt
bytes_lt_total [] [] h k = refl
bytes_lt_total [] (y ∷ b) h k = absurd (ground arith)
bytes_lt_total (x ∷ a) [] h k = absurd (ground arith)
bytes_lt_total (x ∷ a) (y ∷ b) h k = ground (arith, bytes_lt_total a b)

pub bytes_lt_asymm : (a b : Bytes) → bytes_lt a b ≡ true → bytes_lt b a ≡ false
unfolding bytes_lt
bytes_lt_asymm [] [] h = refl
bytes_lt_asymm [] (y ∷ b) h = refl
bytes_lt_asymm (x ∷ a) [] h = absurd (ground arith)
bytes_lt_asymm (x ∷ a) (y ∷ b) h = ground (arith, bytes_lt_asymm a b)

-- A common prefix does not change the order.
pub bytes_lt-append : (p a b : Bytes) → bytes_lt (p ++ a) (p ++ b) ≡ bytes_lt a b
unfolding bytes_lt
bytes_lt-append [] a b = refl
bytes_lt-append (x ∷ p) a b = ground (arith, bytes_lt-append p a b)

pub bytes_lt-cons : (x : ℕ) (a b : Bytes) → bytes_lt (x ∷ a) (x ∷ b) ≡ bytes_lt a b
bytes_lt-cons x a b = bytes_lt-append (x ∷ []) a b

pub bytes_lt-extend : (a : Bytes) (x : ℕ) (b : Bytes) → bytes_lt a (a ++ x ∷ b) ≡ true
unfolding bytes_lt
bytes_lt-extend [] x b = refl
bytes_lt-extend (y ∷ a) x b = ground (arith, bytes_lt-extend a x b)

pub bytes_lt-head : (c k : ℕ) (cs t : Bytes) → c < k → bytes_lt (c ∷ cs) (k ∷ t) ≡ true
unfolding bytes_lt
bytes_lt-head c k cs t h = ground arith

pub bytes_lt-heads :
    (c : ℕ) (cs : Bytes) (d : ℕ) (ds : Bytes)
    → bytes_lt (c ∷ cs) (d ∷ ds) ≡ true
    → (((c == d) ≡ true) × (bytes_lt cs ds ≡ true)) ⊎ (((c == d) ≡ false) × (c < d))
unfolding bytes_lt
bytes_lt-heads c cs d ds lt = ground arith

pub bytes_lt_gap :
    (a b c : Bytes) → bytes_lt a b ≡ false → bytes_lt b c ≡ false → bytes_lt a c ≡ false
bytes_lt_gap a b c h k = elim (Bool-cases (bytes_lt a c)) [
  | inr e ↦ e
  | inl e ↦ elim (Bool-cases (bytes_lt b a)) [
    | inl f ↦ absurd (ground (arith, bytes_lt_trans b a c f e))
    | inr f ↦
        absurd
          (let same : a ≡ b = bytes_lt_total a b h f in let k' = rw (← same) at k in ground arith)
  ]
]

pub bytes_lt-nil : (a : Bytes) → bytes_lt a [] ≡ false
unfolding bytes_lt
bytes_lt-nil [] = refl
bytes_lt-nil (x ∷ a) = refl
