-- ===== src/Order/Heads.antt =====
-- Heads: how `widenHead` moves an integer part to the next or the previous length.
use native.Mathlib.Decide.{dec_lt}
use tk.Prelude.{
  ℕ, ◌+◌, ◌-◌, ◌<◌, true, false, Option, none, some, [], ◌∷◌, ◌++◌, Bytes, ◌≡◌, refl, arith, length,
  all, ltb, ◌==◌, Bool-cases, inl, inr, sym, ap, ◌∙◌, ◌⊎◌, ◌≤◌, bytes_lt, bytes_lt-cons,
  bytes_lt-head, bytes_lt-heads, ap₂, append-nil, and_true, ==_iff, replicate, all_below,
  all_below_sound, length-append, all-append, drop, if◌then◌else◌,
}
use tk.Order.Digits.{int_digit_index-some, int_digit_index-head, head_mono}
use tk.Order.Integers.{
  Incremented, increment_digits-Incremented, decrement_digits-Decremented, is_digit_zero,
  is_digit_last,
}
use tk.Order.{
  digits_alphabet, int_digits_alphabet, index_of, digit_index, int_digit_index, is_digit, head,
  head_value, length_of_index, integer_length, widen_head, widen_up, widen_down, increment_integer,
  decrement_integer, increment_digits, decrement_digits, smallest_integer,
}

-- The head `h` and the digits `ds` of an integer part; `index` is the head's place in its alphabet.
pub record IsInteger (h : ℕ) (ds : Bytes) : Type 0 where
  pub index : ℕ
  pub head_at : int_digit_index h ≡ some index
  pub digits : all is_digit ds ≡ true
  pub sized : length ds + 1 ≡ length_of_index index

heads_table : all_below 52 (λ i. is_digit (head i)) ≡ true
unfolding all_below head int_digits_alphabet digit_index index_of digits_alphabet
heads_table = refl

pub head-is_digit : (h i : ℕ) → int_digit_index h ≡ some i → is_digit h ≡ true
head-is_digit h i e =
    let (b, at) = int_digit_index-some h i e in
    rw at at (all_below_sound 52 (λ i. is_digit (head i)) i heads_table b)

length_of_head : (i : ℕ) → i < 52 → integer_length (head i) ≡ some (length_of_index i)
unfolding integer_length
length_of_head i b = rw (int_digit_index-head i b, integer_length)

IsInteger-head :
    (i : ℕ) (ds : Bytes)
    → i < 52
    → all is_digit ds ≡ true
    → length ds + 1 ≡ length_of_index i
    → IsInteger (head i) ds
IsInteger-head i ds b h l = record {
  index = i;
  head_at = int_digit_index-head i b;
  digits = h;
  sized = l;
}

abbrev Neighbours : ℕ → ℕ → Type 0
Neighbours i j = (j ≡ i + 1) ⊎ (i ≡ j + 1)

-- Neighbouring heads ask for lengths that differ by one at most.
grows_by_one :
    (i j : ℕ)
    → i < 52
    → j < 52
    → Neighbours i j
    → ltb (length_of_index i) (length_of_index j) ≡ true
    → length_of_index j ≡ length_of_index i + 1
unfolding length_of_index
grows_by_one i j bi bj n h = ground arith

same_otherwise :
    (i j : ℕ)
    → ltb (length_of_index i) (length_of_index j) ≡ false
    → ltb (length_of_index j) (length_of_index i) ≡ false
    → length_of_index i ≡ length_of_index j
same_otherwise i j h k = ground arith

all-drop_one : (ds : Bytes) → all is_digit ds ≡ true → all is_digit (drop 1 ds) ≡ true
all-drop_one [] h = refl
all-drop_one (c ∷ ds) h = (and_true (is_digit c) _ h).1

length-drop_one : (ds : Bytes) (n : ℕ) → length ds ≡ n + 1 → length (drop 1 ds) ≡ n
length-drop_one [] n h = absurd (omega arith)
length-drop_one (c ∷ ds) n h = omega arith

size_positive : (i : ℕ) → 2 ≤ length_of_index i + 1
unfolding length_of_index
size_positive i = ground arith

swap_sides : {i j : ℕ} → Neighbours i j → Neighbours j i
swap_sides (inl e) = inr e
swap_sides (inr e) = inl e

abbrev Widened : ℕ → Bytes → Type 0
Widened j x = (es : Bytes) × (x ≡ head j ∷ es) × IsInteger (head j) es

widen_head-if :
    (i j : ℕ) (ds : Bytes) (pad : ℕ)
    → i < 52
    → j < 52
    → widen_head (head j) (head i) ds pad ≡ (
        if ltb (length_of_index i) (length_of_index j)
        then head j ∷ (ds ++ (pad ∷ []))
        else if ltb (length_of_index j) (length_of_index i)
        then head j ∷ drop 1 ds
        else head j ∷ ds)
unfolding widen_head
widen_head-if i j ds pad bi bj = rw (length_of_head i bi, length_of_head j bj)

-- `widenHead` between two neighbouring heads gives the digits that the new head asks for.
widen_head-Widened :
    (i j : ℕ) (ds : Bytes) (pad : ℕ)
    → i < 52
    → j < 52
    → Neighbours i j
    → is_digit pad ≡ true
    → all is_digit ds ≡ true
    → length ds + 1 ≡ length_of_index i
    → Widened j (widen_head (head j) (head i) ds pad)
widen_head-Widened i j ds pad bi bj n hp hd l =
    rw (widen_head-if i j ds pad bi bj)
      (elim (Bool-cases (ltb (length_of_index i) (length_of_index j))) [
        | inl grow ↦ rw grow (
          ds ++ (pad ∷ []),
          refl,
          IsInteger-head j _ bj (ground (arith, all-append is_digit ds (pad ∷ [])))
              (omega (arith, length-append ds (pad ∷ []), grows_by_one i j bi bj n grow)),
        )
        | inr no_grow ↦ elim (Bool-cases (ltb (length_of_index j) (length_of_index i))) [
          | inl shrink ↦
              let one = grows_by_one j i bj bi (swap_sides n) shrink in
              let len : length (drop 1 ds) ≡ length_of_index j - 1 =
                length-drop_one ds _ (omega (arith, size_positive j)) in
              rw (no_grow, shrink)
                (
                  drop 1 ds,
                  refl,
                  IsInteger-head j _ bj (all-drop_one ds hd) (omega (arith, size_positive j)),
                )
          | inr no_shrink ↦
              rw (no_grow, no_shrink)
                (ds, refl, IsInteger-head j ds bj hd (l ∙ same_otherwise i j no_grow no_shrink))
        ]
      ])

-- The successor of an integer part: above every key with that integer part.
pub record Above (h : ℕ) (ds : Bytes) (k : Bytes) : Type 0 where
  pub top : ℕ
  pub rest : Bytes
  pub splits : k ≡ top ∷ rest
  pub integer : IsInteger top rest
  pub above : (fa : Bytes) → bytes_lt ((h ∷ ds) ++ fa) k ≡ true

-- `incrementInteger` fails at no integer part that another one follows.
abbrev pub IncrementedTo : ℕ → Bytes → Option Bytes → Type 0
IncrementedTo h ds (some k) = Above h ds k
IncrementedTo h ds none = (e : ℕ) (es : Bytes) → IsInteger e es → bytes_lt (h ∷ ds) (e ∷ es) ≡ false

head_value-index : {h : ℕ} {ds : Bytes} (n : IsInteger h ds) → head_value h ≡ n.index
unfolding head_value
head_value-index n = rw (n.head_at, head_value)

IsInteger-digits :
    {h : ℕ} {ds : Bytes} (n : IsInteger h ds) (es : Bytes)
    → all is_digit es ≡ true
    → length es ≡ length ds
    → IsInteger h es
IsInteger-digits n es a l = record {
  index = n.index;
  head_at = n.head_at;
  digits = a;
  sized = ap (λ (k : ℕ). k + 1) l ∙ n.sized;
}

-- The greatest head with the greatest digits is above no integer part.
none_above :
    (h : ℕ) (ds : Bytes) (n : IsInteger h ds)
    → n.index ≡ 51
    → Incremented ds (increment_digits ds)
    → (increment_digits ds).0 ≡ true
    → (e : ℕ) (es : Bytes) → IsInteger e es
    → bytes_lt (h ∷ ds) (e ∷ es) ≡ false
none_above h ds n last inc carry e es m =
    let (bn, en) = int_digit_index-some h n.index n.head_at in
    let (bm, em) = int_digit_index-some e m.index m.head_at in
    elim (Bool-cases (bytes_lt (h ∷ ds) (e ∷ es))) [
      | inr no_lt ↦ no_lt
      | inl lt ↦ elim (bytes_lt-heads h ds e es lt) [
        | inl (same_head, below) ↦
            let at : some m.index ≡ some n.index =
              sym m.head_at ∙ ap int_digit_index (sym ((==_iff h e).0 same_head)) ∙ n.head_at in
            let index_eq : m.index ≡ n.index = cc in
            let len : length es ≡ length ds =
              omega (arith, m.sized, n.sized, ap length_of_index index_eq) in
            absurd (ground (arith, inc.greatest carry es m.digits len))
        | inr (_, less) ↦ elim (dec_lt m.index 51) [
          | yes p ↦
              absurd (omega (arith, head_mono m.index 51 p (omega arith), ap head last, en, em))
          | no p ↦
              let index_eq : m.index ≡ n.index = omega arith in
              absurd (omega (arith, ap head index_eq, en, em))
        ]
      ]
    ]

pub increment_integer_lem :
    (h : ℕ) (ds : Bytes) → IsInteger h ds → IncrementedTo h ds (increment_integer (h ∷ ds))
unfolding increment_integer widen_up
increment_integer_lem h ds n =
    let inc = increment_digits-Incremented ds n.digits in
    let (b, e) = int_digit_index-some h n.index n.head_at in
    elim (Bool-cases (increment_digits ds).0) [
      | inr stop ↦ rw stop (record {
        top = h;
        rest = (increment_digits ds).1;
        splits = refl;
        integer = IsInteger-digits n (increment_digits ds).1 inc.digits inc.same_length;
        above = λ fa. rw bytes_lt-cons (inc.greater stop fa);
      })
      | inl carry ↦ elim (Bool-cases (n.index == 51)) [
        | inl last ↦
            rw (carry, head_value-index n, last)
              (none_above h ds n ((==_iff n.index 51).0 last) inc carry)
        | inr wider ↦
            let fits : n.index + 1 < 52 = ground arith in
            let (es, eq, int) = rw e at (
              widen_head-Widened n.index (n.index + 1) (increment_digits ds).1 b'0' b fits
                (inl refl) is_digit_zero inc.digits (omega (arith, inc.same_length, n.sized))) in
            rw (carry, head_value-index n, wider)
              (record {
                top = head (n.index + 1);
                rest = es;
                splits = eq;
                integer = int;
                above = λ fa. rw eq (
                    bytes_lt-head h (head (n.index + 1)) (ds ++ fa) es
                      (rw e at (head_mono n.index (n.index + 1) (omega arith) fits)));
              })
      ]
    ]

-- The predecessor of an integer part: below every key that begins with it, and only the smallest
-- integer part has none.
pub record Below (h : ℕ) (ds : Bytes) (k : Bytes) : Type 0 where
  pub top : ℕ
  pub rest : Bytes
  pub splits : k ≡ top ∷ rest
  pub integer : IsInteger top rest
  pub below : bytes_lt k (h ∷ ds) ≡ true

abbrev pub DecrementedTo : ℕ → Bytes → Option Bytes → Type 0
DecrementedTo h ds (some k) = Below h ds k
DecrementedTo h ds none = (h ∷ ds) ≡ smallest_integer

least_is_smallest :
    (h : ℕ) (ds : Bytes) (n : IsInteger h ds)
    → n.index ≡ 0
    → ds ≡ replicate (length ds) b'0'
    → (h ∷ ds) ≡ smallest_integer
unfolding smallest_integer
least_is_smallest h ds n first zeros =
    let (b, e) = int_digit_index-some h n.index n.head_at in
    let a : head 0 ≡ b'A' = unfold head int_digits_alphabet in refl in
    let l : length_of_index 0 ≡ 27 = unfold length_of_index in refl in
    let len : length ds ≡ 26 = omega (arith, n.sized, ap length_of_index first) in
    ap₂ (λ (x : ℕ) (xs : Bytes). x ∷ xs) (sym e ∙ ap head first ∙ a)
      (zeros ∙ ap (λ k. replicate k b'0') len)

pub decrement_integer_lem :
    (h : ℕ) (ds : Bytes) → IsInteger h ds → DecrementedTo h ds (decrement_integer (h ∷ ds))
unfolding decrement_integer widen_down
decrement_integer_lem h ds n =
    let dec = decrement_digits-Decremented ds n.digits in
    let (b, e) = int_digit_index-some h n.index n.head_at in
    elim (Bool-cases (decrement_digits ds).0) [
      | inr stop ↦ rw stop (record {
        top = h;
        rest = (decrement_digits ds).1;
        splits = refl;
        integer = IsInteger-digits n (decrement_digits ds).1 dec.digits dec.same_length;
        below = rw bytes_lt-cons (rw append-nil at (dec.less stop []));
      })
      | inl borrow ↦ elim (Bool-cases (n.index == 0)) [
        | inl first ↦
            rw (borrow, head_value-index n, first)
              (least_is_smallest h ds n ((==_iff n.index 0).0 first) (dec.least borrow))
        | inr wider ↦
            let next : n.index ≡ n.index - 1 + 1 = ground arith in
            let (es, eq, int) = rw e at (
              widen_head-Widened n.index (n.index - 1) (decrement_digits ds).1 b'z' b (omega arith)
                (inr next) is_digit_last dec.digits (omega (arith, dec.same_length, n.sized))) in
            rw (borrow, head_value-index n, wider)
              (record {
                top = head (n.index - 1);
                rest = es;
                splits = eq;
                integer = int;
                below = rw eq (
                    bytes_lt-head (head (n.index - 1)) h es ds
                      (rw e at (head_mono (n.index - 1) n.index (omega arith) b)));
              })
      ]
    ]
