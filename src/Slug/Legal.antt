-- ===== src/Slug/Legal.antt =====
-- internal/slug/slug.go: the legality of slugs.
use tk.Prelude.{
  ℕ, zero, suc, ◌+◌, ◌≤◌, ◌<◌, Bool, true, false, not, none, some, List, [], ◌∷◌, ◌++◌, Bytes,
  codes, ◌≡◌, refl, sym, ap, ◌∙◌, arith, length, take, drop, ltb, ◌==◌, ==_iff, all, length-append,
  length-take, take-append-drop, append_assoc, append-nil, Bool-cases, Option-cases, inl, inr,
  ltb→lt,
}
use tk.Frontmatter.{join}
use tk.Slug.{
  is_kept, is_upper, flush, tokens_from, before_last_hyphen, trim_right_hyphens, truncate,
  or_fallback, slug_of_tokens, slugify, valid_from, valid, slug_max,
}

abbrev IsToken : Bytes → Type 0
IsToken [] = ⊥
IsToken (c ∷ cs) = all is_kept (c ∷ cs) ≡ true

abbrev AreTokens : List Bytes → Type 0
AreTokens [] = Unit
AreTokens (t ∷ ts) = IsToken t × AreTokens ts

flush-AreTokens : (cur : Bytes) → all is_kept cur ≡ true → AreTokens (flush cur)
flush-AreTokens [] h = tt
flush-AreTokens (c ∷ cs) h = (h, tt)

append-AreTokens : (ts us : List Bytes) → AreTokens ts → AreTokens us → AreTokens (ts ++ us)
append-AreTokens [] us t u = u
append-AreTokens (x ∷ ts) us (h, t) u = (h, append-AreTokens ts us t u)

all_kept-append :
    (s : Bytes) (c : ℕ) → all is_kept s ≡ true → is_kept c ≡ true → all is_kept (s ++ c ∷ []) ≡ true
all_kept-append [] c h k = ground arith
all_kept-append (d ∷ s) c h k = ground (arith, all_kept-append s c)

tokens_from-AreTokens : (cur rs : Bytes) → all is_kept cur ≡ true → AreTokens (tokens_from cur rs)
unfolding tokens_from
tokens_from-AreTokens cur [] h = flush-AreTokens cur h
tokens_from-AreTokens cur (r ∷ rs) h = elim (Bool-cases (is_upper r)) [
  | inl u ↦
      rw u (
        tokens_from-AreTokens _ rs
          (all_kept-append cur (r + 32) h (unfold is_kept in ground arith)))
  | inr u ↦ elim (Bool-cases (is_kept r)) [
    | inl k ↦ rw (u, k) (tokens_from-AreTokens _ rs (all_kept-append cur r h k))
    | inr k ↦
        rw (u, k)
          (append-AreTokens (flush cur) (tokens_from [] rs) (flush-AreTokens cur h)
            (tokens_from-AreTokens [] rs refl))
  ]
]

valid_from-kept :
    (b : Bool) (t rest : Bytes) → IsToken t → valid_from b (t ++ rest) ≡ valid_from false rest
unfolding valid_from
valid_from-kept b [] rest h = absurd h
valid_from-kept b (c ∷ []) rest h = ground arith
valid_from-kept b (c ∷ d ∷ ds) rest h =
    let later : all is_kept (d ∷ ds) ≡ true = ground arith in
    ground (arith, valid_from-kept false (d ∷ ds) rest later)

valid_from-join :
    (b : Bool) (t : Bytes) (ts : List Bytes)
    → IsToken t
    → AreTokens ts
    → valid_from b (join (codes "-") (t ∷ ts)) ≡ true
unfolding join valid_from
valid_from-join b t [] h hs = ap (valid_from b) (sym (append-nil t)) ∙ valid_from-kept b t [] h
valid_from-join b t (u ∷ us) h (k, hs) =
    valid_from-kept b t (codes "-" ++ join (codes "-") (u ∷ us)) h
    ∙ unfold is_kept in valid_from-join true u us k hs

-- What a cut at the last hyphen leaves.
cut_at : (s : Bytes) {p : Bytes} → before_last_hyphen s ≡ some p → (q : Bytes) × (s ≡ p ++ b'-' ∷ q)
unfolding before_last_hyphen
cut_at [] h = absurd cc
cut_at (c ∷ cs) {p} h = elim (Option-cases (before_last_hyphen cs)) [
  | inl e ↦ elim (Bool-cases (c == b'-')) [
    | inl f ↦
        let x = rw (e, f) at h in
        let nil : [] ≡ p = cc in (cs, rw (← nil, (==_iff c b'-').0 f) refl)
    | inr f ↦ absurd (let x = rw (e, f) at h in cc)
  ]
  | inr (r, e) ↦
      let x = rw e at h in
      let (q, split) = cut_at cs e in let head : c ∷ r ≡ p = cc in (q, rw (← head, split) refl)
]

no_hyphen : (s : Bytes) → before_last_hyphen s ≡ none → all (λ c. not (c == b'-')) s ≡ true
unfolding before_last_hyphen
no_hyphen [] h = refl
no_hyphen (c ∷ cs) h = ground (arith, no_hyphen cs)

valid_from-prefix :
    (b : Bool) (p q : Bytes) → valid_from b (p ++ b'-' ∷ q) ≡ true → valid_from b p ≡ true
unfolding valid_from is_kept
valid_from-prefix b [] q h = ground arith
valid_from-prefix b (c ∷ p) q h =
    ground (arith, valid_from-prefix false p q, valid_from-prefix true p q)

-- The bytes of a legal text before its first hyphen.
kept-take :
    (n : ℕ) (b : Bool) (s : Bytes)
    → valid_from b s ≡ true
    → all (λ c. not (c == b'-')) (take (suc n) s) ≡ true
    → all is_kept (take n s) ≡ true
unfolding valid_from
kept-take zero b s h k = refl
kept-take (suc n) b [] h k = refl
kept-take (suc n) b (c ∷ s) h k = ground (arith, kept-take n false s)

trim_right_hyphens-kept : (t : Bytes) → all is_kept t ≡ true → trim_right_hyphens t ≡ t
unfolding trim_right_hyphens is_kept
trim_right_hyphens-kept [] h = refl
trim_right_hyphens-kept (c ∷ []) h = ground arith
trim_right_hyphens-kept (c ∷ d ∷ t) h = rw (trim_right_hyphens-kept (d ∷ t) (ground arith)) refl

IsToken-take :
    (n : ℕ) (s : Bytes)
    → n < length s
    → all is_kept (take (suc n) s) ≡ true
    → IsToken (take (suc n) s)
IsToken-take n [] h k = absurd (omega arith)
IsToken-take n (c ∷ s) h k = k

valid-within :
    (s : Bytes) → valid_from true s ≡ true → length s ≤ slug_max → valid (or_fallback s) ≡ true
unfolding valid valid_from
valid-within [] h l = absurd (ground arith)
valid-within (c ∷ s) h l = ground arith

valid-truncate :
    (s : Bytes)
    → valid_from true s ≡ true
    → slug_max < length s
    → valid (or_fallback (truncate s)) ≡ true
unfolding truncate join
valid-truncate s h l = elim (Option-cases (before_last_hyphen (take (slug_max + 1) s))) [
  | inl e ↦
      let kept = kept-take slug_max true s h (no_hyphen (take (slug_max + 1) s) e) in
      let token : IsToken (take slug_max s) = IsToken-take 47 s (omega arith) kept in
      rw (e, truncate, trim_right_hyphens-kept (take slug_max s) kept)
        (valid-within (take slug_max s) (valid_from-join true (take slug_max s) [] token tt)
          (omega (arith, length-take slug_max s)))
  | inr (p, e) ↦
      let (q, split) = cut_at (take (slug_max + 1) s) e in
      let whole : s ≡ p ++ b'-' ∷ (q ++ drop (slug_max + 1) s) =
        sym (take-append-drop (slug_max + 1) s)
        ∙ ap (λ t. t ++ drop (slug_max + 1) s) split
        ∙ append_assoc p (b'-' ∷ q) (drop (slug_max + 1) s) in
      let short : length p ≤ slug_max =
        omega (arith, length-take (slug_max + 1) s, ap length split, length-append p (b'-' ∷ q)) in
      rw (e, truncate)
        (valid-within p (valid_from-prefix true p (q ++ drop (slug_max + 1) s) (rw whole at h))
          short)
]

from_tokens : (ts : List Bytes) → AreTokens ts → valid (slug_of_tokens ts) ≡ true
unfolding slug_of_tokens valid valid_from is_kept
from_tokens [] h = refl
from_tokens (t ∷ ts) (h, hs) =
    let s : Bytes = join (codes "-") (t ∷ ts) in
    let good = valid_from-join true t ts h hs in
    elim (Bool-cases (ltb slug_max (length s))) [
      | inl e ↦ rw e (valid-truncate s good (ltb→lt slug_max (length s) e))
      | inr e ↦ rw e (valid-within s good (ground arith))
    ]

-- Whatever the title and its normalisation, the slug is legal: 1 to 48 bytes, of lowercase letters and
-- digits with single hyphens between them.
pub slugify-valid : (nfkc : Bytes → List ℕ) (title : Bytes) → valid (slugify nfkc title) ≡ true
unfolding slugify slug_of_tokens
slugify-valid nfkc title =
    from_tokens (tokens_from [] (nfkc title)) (tokens_from-AreTokens [] (nfkc title) refl)
