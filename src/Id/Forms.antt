-- ===== src/Id/Forms.antt =====
-- The grammar of full ticket ids, and the rewriting of their scope.
use tk.Prelude.{
  true, false, some, [], ◌∷◌, ◌++◌, Bytes, ◌≡◌, refl, arith, ap, sym, ◌∙◌, bytes_eq_refl, ◌↔◌,
  ==_iff, drop-append, all, ◌==◌, Bool-cases, Option-cases, inl, inr, and_true,
}
use tk.Id.{
  has_byte, is_lower_alnum, is_short_id_char, is_scope_name, is_short_id, cut_hyphen,
  is_full_ticket_id, scope_of_full_id, has_prefix, trim_prefix, rewrite_prefix,
}

-- The text before the '-' of a cut has no '-', and the cut puts the text together again.
pub cut_hyphen-join :
    (s scope short : Bytes) → cut_hyphen s ≡ some (scope, short) → s ≡ scope ++ b'-' ∷ short
unfolding cut_hyphen
cut_hyphen-join [] scope short h = absurd (ground arith)
cut_hyphen-join (c ∷ cs) scope short h = elim (Bool-cases (c == b'-')) [
  | inl e ↦ ground arith
  | inr e ↦ elim (Option-cases (cut_hyphen cs)) [
    | inl n ↦ absurd (ground arith)
    | inr ((b, a), n) ↦ ground (arith, cut_hyphen-join cs b a n)
  ]
]

pub cut_hyphen-append :
    (scope short : Bytes)
    → has_byte scope b'-' ≡ false
    → cut_hyphen (scope ++ b'-' ∷ short) ≡ some (scope, short)
unfolding cut_hyphen has_byte
cut_hyphen-append [] short h = refl
cut_hyphen-append (c ∷ cs) short h = ground (arith, cut_hyphen-append cs short)

pub has_byte-scope : (s : Bytes) → all is_lower_alnum s ≡ true → has_byte s b'-' ≡ false
unfolding has_byte is_lower_alnum
has_byte-scope [] h = refl
has_byte-scope (c ∷ cs) h = ground (arith, has_byte-scope cs)

hyphen_is_no_char : is_short_id_char b'-' ≡ false
unfolding is_short_id_char
hyphen_is_no_char = refl

pub has_byte-short : (s : Bytes) → all is_short_id_char s ≡ true → has_byte s b'-' ≡ false
unfolding has_byte
has_byte-short [] h = refl
has_byte-short (c ∷ cs) h =
    let (hc, hs) = and_true (is_short_id_char c) _ h in
    elim (Bool-cases (c == b'-')) [
      | inr e ↦ rw e (has_byte-short cs hs)
      | inl e ↦
          let same : c ≡ b'-' = (==_iff c b'-').0 e in
          let no : is_short_id_char b'-' ≡ true = rw same at hc in
          absurd (ground (arith, hyphen_is_no_char))
    ]

pub is_scope_name-chars : (s : Bytes) → is_scope_name s ≡ true → all is_lower_alnum s ≡ true
unfolding is_scope_name
is_scope_name-chars s h = ground arith

pub is_short_id-chars : (s : Bytes) → is_short_id s ≡ true → all is_short_id_char s ≡ true
unfolding is_short_id
is_short_id-chars s h = ground arith

-- A full id as its two legal halves.
pub record FullId (s : Bytes) : Type 0 where
  pub scope : Bytes
  pub short : Bytes
  pub joined : s ≡ scope ++ b'-' ∷ short
  pub scope_legal : is_scope_name scope ≡ true
  pub short_legal : is_short_id short ≡ true
  pub scope_is : scope_of_full_id s ≡ scope

scope_of_full_id-append :
    (scope short : Bytes)
    → is_scope_name scope ≡ true
    → scope_of_full_id (scope ++ b'-' ∷ short) ≡ scope
unfolding scope_of_full_id
scope_of_full_id-append scope short h = rw (
  cut_hyphen-append scope short (has_byte-scope scope (is_scope_name-chars scope h)),
  scope_of_full_id,
)

is_full_ticket_id-append :
    (scope short : Bytes)
    → is_scope_name scope ≡ true
    → is_short_id short ≡ true
    → is_full_ticket_id (scope ++ b'-' ∷ short) ≡ true
unfolding is_full_ticket_id
is_full_ticket_id-append scope short hs ht =
    rw
      (
        cut_hyphen-append scope short (has_byte-scope scope (is_scope_name-chars scope hs)),
        is_full_ticket_id,
        has_byte-short short (is_short_id-chars short ht),
        hs,
      )
      ht

full_parts : (s : Bytes) → is_full_ticket_id s ≡ true → FullId s
unfolding is_full_ticket_id scope_of_full_id
full_parts s h = elim (Option-cases (cut_hyphen s)) [
  | inl n ↦ absurd (ground arith)
  | inr ((b, a), n) ↦ record {
    scope = b;
    short = a;
    joined = cut_hyphen-join s b a n;
    scope_legal = ground arith;
    short_legal = ground arith;
    scope_is = rw (n, scope_of_full_id);
  }
]

-- A full ticket id is exactly a legal scope name, one '-', and a legal short-id. `ScopeOfFullID` of it
-- is that scope name, so the two halves are read off without ambiguity.
pub is_full_ticket_id_iff : (s : Bytes) → (is_full_ticket_id s ≡ true) ↔ FullId s
is_full_ticket_id_iff s = (
  full_parts s,
  λ f. rw f.joined (is_full_ticket_id-append f.scope f.short f.scope_legal f.short_legal),
)

has_prefix-append : (p s : Bytes) → has_prefix (p ++ s) p ≡ true
unfolding has_prefix
has_prefix-append [] s = refl
has_prefix-append (c ∷ p) s = ground (arith, has_prefix-append p s)

trim_prefix-append : (p s : Bytes) → trim_prefix (p ++ s) p ≡ s
unfolding trim_prefix
trim_prefix-append p s = rw (has_prefix-append p s) (drop-append p s)

rewrite_prefix-append :
    (scope short new_name : Bytes)
    → is_scope_name scope ≡ true
    → is_short_id short ≡ true
    → rewrite_prefix (scope ++ b'-' ∷ short) scope new_name ≡ new_name ++ b'-' ∷ short
unfolding rewrite_prefix
rewrite_prefix-append scope short new_name hs ht =
    rw
      (
        is_full_ticket_id-append scope short hs ht,
        scope_of_full_id-append scope short hs,
        bytes_eq_refl scope,
      )
      (ap (λ t. new_name ++ t) (trim_prefix-append scope (b'-' ∷ short)))

-- For a full id of scope `old_name` and a legal scope name `new_name`, `RewritePrefix` gives a full id of
-- scope `new_name`, and rewriting that back gives the id again, so the short-id is kept.
pub rewrite_prefix-rewrite_prefix :
    (full old_name new_name : Bytes)
    → is_full_ticket_id full ≡ true
    → scope_of_full_id full ≡ old_name
    → is_scope_name new_name ≡ true
    → (is_full_ticket_id (rewrite_prefix full old_name new_name) ≡ true)
      × (scope_of_full_id (rewrite_prefix full old_name new_name) ≡ new_name)
      × (rewrite_prefix (rewrite_prefix full old_name new_name) new_name old_name ≡ full)
rewrite_prefix-rewrite_prefix full old_name new_name h scoped legal =
    let f = full_parts full h in
    let old : old_name ≡ f.scope = sym scoped ∙ f.scope_is in
    let e : rewrite_prefix full old_name new_name ≡ new_name ++ b'-' ∷ f.short =
      rw (f.joined, old)
        (rewrite_prefix-append f.scope f.short new_name f.scope_legal f.short_legal) in
    rw e (
      is_full_ticket_id-append new_name f.short legal f.short_legal,
      scope_of_full_id-append new_name f.short legal,
      rewrite_prefix-append new_name f.short old_name legal f.short_legal
          ∙ ap (λ t. t ++ b'-' ∷ f.short) old
          ∙ sym f.joined,
    )
