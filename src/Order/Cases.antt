-- ===== src/Order/Cases.antt =====
-- The three cases of the `switch` in `KeyBetween`: each gives a valid key at its place.
use tk.Prelude.{
  ℕ, true, false, [], ◌∷◌, ◌++◌, Bytes, ◌≡◌, ◌≢◌, refl, arith, inl, inr, length, sym, ap, ◌∙◌,
  Bool-cases, some, Option-cases, List-cases, bytes_eq, bytes_eq_iff, bytes_lt, bytes_lt-append,
  bytes_lt-heads, bytes_lt-head, append-nil, bytes_lt-extend, ==_iff, ap₂, bytes_lt-cons,
}
use tk.Order.Heads.{IsInteger, Above, Below, increment_integer_lem, decrement_integer_lem}
use tk.Order.Midpoint.{IsFraction, midpoint_open-above, midpoint-between}
use tk.Order.Parts.{Parts, append-valid, integer-valid}
use tk.Order.{
  valid, smallest_integer, midpoint, midpoint_open, increment_integer, decrement_integer, ok,
  before_parts, after_parts, amid_parts, int_digit_index, length_of_index,
}

pub bytes_lt-nil_of_valid : (k : Bytes) → valid k ≡ true → bytes_lt [] k ≡ true
unfolding valid bytes_lt
bytes_lt-nil_of_valid [] v = absurd (ground arith)
bytes_lt-nil_of_valid (h ∷ t) v = refl

-- An integer part followed by a fraction that lies above the bound's own.
above_in_part :
    (k : Bytes) (p : Parts k) (m : Bytes)
    → IsFraction m
    → bytes_lt p.fraction m ≡ true
    → (valid ((p.top ∷ p.rest) ++ m) ≡ true) × (bytes_lt k ((p.top ∷ p.rest) ++ m) ≡ true)
above_in_part k p m f lt =
    (append-valid p.top p.rest m p.integer f.digits f.trimmed, rw p.splits (rw bytes_lt-append lt))

pub after_parts-Between :
    (a : Bytes) (p : Parts a)
    → (k : Bytes) × (after_parts (p.top ∷ p.rest) p.fraction ≡ ok k)
      × (valid k ≡ true)
      × (bytes_lt a k ≡ true)
unfolding after_parts midpoint
after_parts-Between a p = elim (Option-cases (increment_integer (p.top ∷ p.rest))) [
  | inl e ↦
      let (f, lt) = midpoint_open-above p.fraction p.digits in
      let (v, up) = above_in_part a p (midpoint_open p.fraction) f lt in
      rw (e, after_parts) ((p.top ∷ p.rest) ++ midpoint_open p.fraction, refl, v, up)
  | inr (k, e) ↦
      let r : Above p.top p.rest k = rw e at (increment_integer_lem p.top p.rest p.integer) in
      rw (e, after_parts)
        (
          k,
          refl,
          rw r.splits (integer-valid r.top r.rest r.integer),
          rw p.splits (r.above p.fraction),
        )
]

-- A key that is its own integer part.
whole : (b : Bytes) (p : Parts b) → bytes_lt (p.top ∷ p.rest) b ≡ false → b ≡ p.top ∷ p.rest
whole b p h = elim (List-cases p.fraction) [
  | inl e ↦ p.splits ∙ rw e (append-nil (p.top ∷ p.rest))
  | inr (c, cs, e) ↦ absurd (
      let up = bytes_lt-extend (p.top ∷ p.rest) c cs in
      let b_is : b ≡ (p.top ∷ p.rest) ++ c ∷ cs = p.splits ∙ ap (◌++◌ (p.top ∷ p.rest)) e in
      let up' : bytes_lt (p.top ∷ p.rest) b ≡ true = rw b_is up in ground arith)
]

pub before_parts-Between :
    (b : Bytes) (p : Parts b)
    → b ≢ smallest_integer
    → (k : Bytes) × (before_parts b (p.top ∷ p.rest) p.fraction ≡ ok k)
      × (valid k ≡ true)
      × (bytes_lt k b ≡ true)
unfolding before_parts
before_parts-Between b p ne = elim (Bool-cases (bytes_eq (p.top ∷ p.rest) smallest_integer)) [
  | inl least ↦ elim (List-cases p.fraction) [
    | inl e ↦ absurd (ne (p.splits ∙ rw e (append-nil _) ∙ (bytes_eq_iff _ _).0 least))
    | inr (c, cs, e) ↦
        let lt : bytes_lt [] p.fraction ≡ true = rw e (unfold bytes_lt in refl) in
        let (f, up, down) = midpoint-between [] p.fraction refl p.digits p.trimmed lt in
        let k : Bytes = (p.top ∷ p.rest) ++ midpoint [] p.fraction in
        rw least (
          k,
          refl,
          append-valid p.top p.rest _ p.integer f.digits f.trimmed,
          rw p.splits (rw bytes_lt-append down),
        )
  ]
  | inr other ↦ elim (Bool-cases (bytes_lt (p.top ∷ p.rest) b)) [
    | inl lt ↦ rw (other, lt) (p.top ∷ p.rest, refl, integer-valid p.top p.rest p.integer, lt)
    | inr no_lt ↦ elim (Option-cases (decrement_integer (p.top ∷ p.rest))) [
      | inl e ↦ absurd (
          let s : (p.top ∷ p.rest) ≡ smallest_integer =
            rw e at (decrement_integer_lem p.top p.rest p.integer) in
          ground (arith, bytes_eq_iff (p.top ∷ p.rest) smallest_integer))
      | inr (k, e) ↦
          let r : Below p.top p.rest k = rw e at (decrement_integer_lem p.top p.rest p.integer) in
          rw (other, no_lt, e)
            (
              k,
              refl,
              rw r.splits (integer-valid r.top r.rest r.integer),
              rw (whole b p no_lt) r.below,
            )
    ]
  ]
]

-- Two runs of one length that differ decide the order, whatever follows them.
run_decides :
    (xs ys fa fb : Bytes)
    → length xs ≡ length ys
    → xs ≢ ys
    → bytes_lt (xs ++ fa) (ys ++ fb) ≡ true
    → (ga gb : Bytes) → bytes_lt (xs ++ ga) (ys ++ gb) ≡ true
unfolding bytes_lt
run_decides [] [] fa fb l ne lt ga gb = absurd (ne refl)
run_decides [] (y ∷ ys) fa fb l ne lt ga gb = absurd (omega arith)
run_decides (x ∷ xs) [] fa fb l ne lt ga gb = absurd (omega arith)
run_decides (x ∷ xs) (y ∷ ys) fa fb l ne lt ga gb =
    elim (bytes_lt-heads x (xs ++ fa) y (ys ++ fb) lt) [
      | inr (_, less) ↦ bytes_lt-head x y (xs ++ ga) (ys ++ gb) less
      | inl (e, rest) ↦
          let same : x ≡ y = (==_iff x y).0 e in
          let ne' : xs ≢ ys = λ q. ne (ap₂ (λ (c : ℕ) (cs : Bytes). c ∷ cs) same q) in
          rw (same, bytes_lt-cons) (run_decides xs ys fa fb (omega arith) ne' rest ga gb)
    ]

-- Two integer parts that differ decide the order of the keys.
integers_decide :
    (h : ℕ) (ds : Bytes) (e : ℕ) (es fa fb : Bytes)
    → IsInteger h ds
    → IsInteger e es
    → h ∷ ds ≢ e ∷ es
    → bytes_lt ((h ∷ ds) ++ fa) ((e ∷ es) ++ fb) ≡ true
    → (ga gb : Bytes) → bytes_lt ((h ∷ ds) ++ ga) ((e ∷ es) ++ gb) ≡ true
integers_decide h ds e es fa fb n m ne lt ga gb =
    elim (bytes_lt-heads h (ds ++ fa) e (es ++ fb) lt) [
      | inr (_, less) ↦ bytes_lt-head h e (ds ++ ga) (es ++ gb) less
      | inl (same_head, rest) ↦
          let at : some m.index ≡ some n.index =
            sym m.head_at ∙ ap int_digit_index (sym ((==_iff h e).0 same_head)) ∙ n.head_at in
          let index_eq : m.index ≡ n.index = cc in
          let len : length (h ∷ ds) ≡ length (e ∷ es) =
            omega (arith, m.sized, n.sized, ap length_of_index index_eq) in
          run_decides (h ∷ ds) (e ∷ es) fa fb len ne lt ga gb
    ]

pub amid_parts-Between :
    (a b : Bytes) (p : Parts a) (q : Parts b)
    → bytes_lt a b ≡ true
    → (k : Bytes) × (amid_parts b (p.top ∷ p.rest) p.fraction (q.top ∷ q.rest) q.fraction ≡ ok k)
      × (valid k ≡ true)
      × (bytes_lt a k ≡ true)
      × (bytes_lt k b ≡ true)
unfolding amid_parts midpoint
amid_parts-Between a b p q lt = elim (Bool-cases (bytes_eq (p.top ∷ p.rest) (q.top ∷ q.rest))) [
  | inl e ↦
      let same : (p.top ∷ p.rest) ≡ (q.top ∷ q.rest) = (bytes_eq_iff _ _).0 e in
      let b_is : b ≡ (p.top ∷ p.rest) ++ q.fraction =
        q.splits ∙ ap (λ xs. xs ++ q.fraction) (sym same) in
      let inner : bytes_lt p.fraction q.fraction ≡ true =
        rw bytes_lt-append at (rw b_is at (rw p.splits at lt)) in
      let (f, up, down) =
        midpoint-between p.fraction q.fraction p.digits q.digits q.trimmed inner in
      let (v, over) = above_in_part a p _ f up in
      rw e (
        (p.top ∷ p.rest) ++ midpoint p.fraction q.fraction,
        refl,
        v,
        over,
        rw b_is (rw bytes_lt-append down),
      )
  | inr other ↦
      let ne : p.top ∷ p.rest ≢ q.top ∷ q.rest =
        λ s. ground (arith, bytes_eq_iff (p.top ∷ p.rest) (q.top ∷ q.rest)) in
      let decide =
        integers_decide p.top p.rest q.top q.rest p.fraction q.fraction p.integer q.integer ne
          (rw q.splits at (rw p.splits at lt)) in
      elim (Option-cases (increment_integer (p.top ∷ p.rest))) [
        | inl e ↦ absurd (
            let none_above = rw e at (increment_integer_lem p.top p.rest p.integer) in
            let no : bytes_lt (p.top ∷ p.rest) (q.top ∷ q.rest) ≡ false =
              none_above q.top q.rest q.integer in
            let up : bytes_lt (p.top ∷ p.rest) (q.top ∷ q.rest) ≡ true =
              rw append-nil at (rw append-nil at (decide [] [])) in
            ground arith)
        | inr (k, e) ↦ elim (Bool-cases (bytes_lt k b)) [
          | inl fits ↦
              let r : Above p.top p.rest k =
                rw e at (increment_integer_lem p.top p.rest p.integer) in
              rw (other, e, fits)
                (
                  k,
                  refl,
                  rw r.splits (integer-valid r.top r.rest r.integer),
                  rw p.splits (r.above p.fraction),
                  fits,
                )
          | inr past ↦
              let (f, up) = midpoint_open-above p.fraction p.digits in
              let (v, over) = above_in_part a p (midpoint_open p.fraction) f up in
              rw (other, e, past)
                (
                  (p.top ∷ p.rest) ++ midpoint_open p.fraction,
                  refl,
                  v,
                  over,
                  rw q.splits (decide (midpoint_open p.fraction) q.fraction),
                )
        ]
      ]
]
