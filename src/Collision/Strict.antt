-- ===== src/Collision/Strict.antt =====
-- internal/collision/collision.go: `KeepBefore` as an order.
use tk.Prelude.{
  ℕ, Bool, true, false, not, Option, none, some, Bytes, ◌≡◌, refl, arith, inl, inr, Bool-cases,
  bytes_eq, bytes_eq_iff, bytes_eq_refl, bytes_lt, bytes_lt_trans, bytes_lt_total, bytes_lt_asymm,
  if◌then◌else◌,
}
use tk.Collision.{Member, parse_instant, keep_by_rest, keep_by_instant, keep_before}

-- One lexicographic step: an order on strings, with `rest` where they are equal.
abbrev lex : Bytes → Bytes → Bool → Bool
lex a b rest = if not (bytes_eq a b) then bytes_lt a b else rest

lex_trans :
    (a b c : Bytes) (ab bc ac : Bool)
    → (ab ≡ true → bc ≡ true → ac ≡ true)
    → lex a b ab ≡ true
    → lex b c bc ≡ true
    → lex a c ac ≡ true
lex_trans a b c ab bc ac rest h k = elim (Bool-cases (bytes_eq a b)) [
  | inl e ↦
      let same : a ≡ b = (bytes_eq_iff a b).0 e in
      elim (Bool-cases (bytes_eq b c)) [
        | inl f ↦
            let h' : ab ≡ true = ground arith in
            let k' : bc ≡ true = ground arith in rw (same, f) (rest h' k')
        | inr f ↦ rw same (ground arith)
      ]
  | inr e ↦ elim (Bool-cases (bytes_eq b c)) [
    | inl f ↦ let same : b ≡ c = (bytes_eq_iff b c).0 f in rw (← same) (ground arith)
    | inr f ↦
        let up : bytes_lt a b ≡ true = ground arith in
        let on : bytes_lt b c ≡ true = ground arith in
        ground (arith, bytes_lt_trans a b c up on, bytes_eq_iff a c, bytes_lt_asymm a b up)
  ]
]

lex_asymm :
    (a b : Bytes) (ab ba : Bool) → (ab ≡ true → ba ≡ false) → lex a b ab ≡ true → lex b a ba ≡ false
lex_asymm a b ab ba rest h = elim (Bool-cases (bytes_eq a b)) [
  | inl e ↦
      let same : a ≡ b = (bytes_eq_iff a b).0 e in
      let h' : ab ≡ true = ground arith in rw (same, bytes_eq_refl b) (rest h')
  | inr e ↦
      let up : bytes_lt a b ≡ true = ground arith in
      ground (arith, bytes_lt_asymm a b up, bytes_eq_iff a b, bytes_eq_iff b a)
]

lex_total :
    (a b : Bytes) (ab ba : Bool)
    → lex a b ab ≡ false
    → lex b a ba ≡ false
    → (a ≡ b) × (ab ≡ false) × (ba ≡ false)
lex_total a b ab ba h k = elim (Bool-cases (bytes_eq a b)) [
  | inl e ↦
      let same : a ≡ b = (bytes_eq_iff a b).0 e in
      let back : bytes_eq b a ≡ true = rw same (bytes_eq_refl b) in
      (same, ground arith, ground arith)
  | inr e ↦ absurd (
      let no : bytes_lt a b ≡ false = ground arith in
      let no' : bytes_lt b a ≡ false = ground (arith, bytes_eq_iff b a, bytes_eq_iff a b) in
      ground (arith, bytes_eq_iff a b, bytes_lt_total a b no no'))
]

instant_trans :
    (a b c : Option ℕ) (ab bc ac : Bool)
    → (ab ≡ true → bc ≡ true → ac ≡ true)
    → keep_by_instant a b ab ≡ true
    → keep_by_instant b c bc ≡ true
    → keep_by_instant a c ac ≡ true
unfolding keep_by_instant
instant_trans none none none ab bc ac rest h k = rest h k
instant_trans none none (some z) ab bc ac rest h k = refl
instant_trans none (some y) none ab bc ac rest h k = cc
instant_trans none (some y) (some z) ab bc ac rest h k = refl
instant_trans (some x) none c ab bc ac rest h k = absurd (ground arith)
instant_trans (some x) (some y) none ab bc ac rest h k = absurd (ground arith)
instant_trans (some x) (some y) (some z) ab bc ac rest h k = ground arith

instant_asymm :
    (a b : Option ℕ) (ab ba : Bool)
    → (ab ≡ true → ba ≡ false)
    → keep_by_instant a b ab ≡ true
    → keep_by_instant b a ba ≡ false
unfolding keep_by_instant
instant_asymm none none ab ba rest h = rest h
instant_asymm none (some y) ab ba rest h = refl
instant_asymm (some x) none ab ba rest h = absurd (ground arith)
instant_asymm (some x) (some y) ab ba rest h = ground arith

instant_total :
    (a b : Option ℕ) (ab ba : Bool)
    → keep_by_instant a b ab ≡ false
    → keep_by_instant b a ba ≡ false
    → (a ≡ b) × (ab ≡ false) × (ba ≡ false)
unfolding keep_by_instant
instant_total none none ab ba h k = (refl, h, k)
instant_total none (some y) ab ba h k = absurd (ground arith)
instant_total (some x) none ab ba h k = absurd (ground arith)
instant_total (some x) (some y) ab ba h k = ground arith

module _ (parse_time : Bytes → Option ℕ) (sum256 : Bytes → Bytes) where
  -- The keys that `KeepBefore` compares.
  pub record SameKeys (a b : Member) : Type 0 where
    pub instant : parse_instant parse_time a.created ≡ parse_instant parse_time b.created
    pub basename : a.basename ≡ b.basename
    pub digest : sum256 a.raw ≡ sum256 b.raw
    pub path : a.path ≡ b.path

  rest_trans :
      (a b c : Member)
      → keep_by_rest sum256 a b ≡ true
      → keep_by_rest sum256 b c ≡ true
      → keep_by_rest sum256 a c ≡ true
  unfolding keep_by_rest
  rest_trans a b c = lex_trans a.basename b.basename c.basename _ _ _ (
      lex_trans (sum256 a.raw) (sum256 b.raw) (sum256 c.raw) _ _ _
        (bytes_lt_trans a.path b.path c.path))

  rest_asymm : (a b : Member) → keep_by_rest sum256 a b ≡ true → keep_by_rest sum256 b a ≡ false
  unfolding keep_by_rest
  rest_asymm a b =
      lex_asymm a.basename b.basename _ _
        (lex_asymm (sum256 a.raw) (sum256 b.raw) _ _ (bytes_lt_asymm a.path b.path))

  -- `KeepBefore` is transitive.
  pub keep_before_trans :
      (a b c : Member)
      → keep_before parse_time sum256 a b ≡ true
      → keep_before parse_time sum256 b c ≡ true
      → keep_before parse_time sum256 a c ≡ true
  unfolding keep_before
  keep_before_trans a b c =
      instant_trans (parse_instant parse_time a.created) (parse_instant parse_time b.created)
        (parse_instant parse_time c.created) _ _ _ (rest_trans a b c)

  pub keep_before_asymm :
      (a b : Member)
      → keep_before parse_time sum256 a b ≡ true
      → keep_before parse_time sum256 b a ≡ false
  unfolding keep_before
  keep_before_asymm a b =
      instant_asymm (parse_instant parse_time a.created) (parse_instant parse_time b.created) _ _
        (rest_asymm a b)

  -- Of two files neither of which is kept over the other, the instants, basenames, digests and paths
  -- are equal. So among files with different paths exactly one is kept, whichever is asked first.
  pub keep_before_total :
      (a b : Member)
      → keep_before parse_time sum256 a b ≡ false
      → keep_before parse_time sum256 b a ≡ false
      → SameKeys a b
  unfolding keep_before keep_by_rest
  keep_before_total a b h k =
      let (i, ab, ba) =
        instant_total (parse_instant parse_time a.created) (parse_instant parse_time b.created) _ _
          h k in
      let (n, ab', ba') = lex_total a.basename b.basename _ _ ab ba in
      let (d, ab'', ba'') = lex_total (sum256 a.raw) (sum256 b.raw) _ _ ab' ba' in
      record {
        instant = i;
        basename = n;
        digest = d;
        path = bytes_lt_total a.path b.path ab'' ba'';
      }

  -- `KeepBefore` decides between two files: for a pair that differs in the path, in the digest, in the
  -- basename or in the instant, exactly one of the two is kept over the other.
  pub keep_before-decides :
      (a b : Member)
      → ¬ SameKeys a b
      → keep_before parse_time sum256 a b ≡ not (keep_before parse_time sum256 b a)
  keep_before-decides a b ne = elim (Bool-cases (keep_before parse_time sum256 a b)) [
    | inl yes_a ↦ rw (yes_a, keep_before_asymm a b yes_a) refl
    | inr no_a ↦ elim (Bool-cases (keep_before parse_time sum256 b a)) [
      | inl yes_b ↦ rw (no_a, yes_b) refl
      | inr no_b ↦ absurd (ne (keep_before_total a b no_a no_b))
    ]
  ]
