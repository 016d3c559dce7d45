-- ===== src/Scopefile/Names.antt =====
-- internal/scopefile/scopefile.go: the grammar of ticket file names.
use tk.Prelude.{
  true, false, none, some, List, [], ◌∷◌, ◌++◌, Bytes, ◌≡◌, refl, sym, ap, ◌∙◌, arith, append_assoc,
  bytes_eq, bytes_eq_iff, Bool-cases, Option-cases, inl, inr, ◌⊎◌, ◌↔◌, length, length-append, ℕ,
}
use tk.Id.{cut_hyphen, has_byte, is_full_ticket_id}
use tk.Id.Forms.{
  FullId, is_full_ticket_id_iff, cut_hyphen-join, cut_hyphen-append, has_byte-scope, has_byte-short,
  is_scope_name-chars, is_short_id-chars,
}
use tk.Slug.{valid}
use tk.Scopefile.{cut_suffix, split_3, id_of_parts, ticket_id_from_base, md}

pub cut_suffix-join :
    (s suffix : Bytes) {t : Bytes} → cut_suffix s suffix ≡ some t → s ≡ t ++ suffix
unfolding cut_suffix
cut_suffix-join [] suffix h = ground (arith, bytes_eq_iff [] suffix)
cut_suffix-join (c ∷ cs) suffix {t} h = elim (Bool-cases (bytes_eq (c ∷ cs) suffix)) [
  | inl e ↦
      let same = (bytes_eq_iff (c ∷ cs) suffix).0 e in
      let x = rw e at h in let t_is : t ≡ [] = cc in rw t_is same
  | inr e ↦ elim (Option-cases (cut_suffix cs suffix)) [
    | inl n ↦ absurd (let x = rw (e, n) at h in cc)
    | inr (u, n) ↦
        let x = rw (e, n) at h in
        let t_is : t ≡ c ∷ u = cc in rw t_is (ap (◌∷◌ c) (cut_suffix-join cs suffix n))
  ]
]

longer : (c : ℕ) (t suffix : Bytes) → bytes_eq (c ∷ (t ++ suffix)) suffix ≡ false
longer c t suffix = elim (Bool-cases (bytes_eq (c ∷ (t ++ suffix)) suffix)) [
  | inr e ↦ e
  | inl e ↦
      let same = ap length ((bytes_eq_iff (c ∷ (t ++ suffix)) suffix).0 e) in
      absurd (omega (arith, same, length-append t suffix))
]

pub cut_suffix-append : (t suffix : Bytes) → cut_suffix (t ++ suffix) suffix ≡ some t
unfolding cut_suffix bytes_eq
cut_suffix-append [] [] = refl
cut_suffix-append [] (c ∷ suffix) = rw ((bytes_eq_iff (c ∷ suffix) (c ∷ suffix)).1 refl) refl
cut_suffix-append (c ∷ t) suffix = rw (longer c t suffix, cut_suffix-append t suffix) refl

-- The names that a ticket file can have for a full id: the id alone, or the id and a legal slug.
pub data IsNameOf (full base : Bytes) : Type 0 where
  bare : base ≡ full ++ md → IsNameOf full base
  slugged :
      (tail : Bytes) → valid tail ≡ true → base ≡ (full ++ b'-' ∷ tail) ++ md → IsNameOf full base

-- The parts of a stem, and the stem of its parts.
full_of_parts :
    (parts : List Bytes) {full : Bytes}
    → id_of_parts parts ≡ some full
    → (a b : Bytes) × (full ≡ a ++ b'-' ∷ b)
      × (is_full_ticket_id full ≡ true)
      × ((parts ≡ a ∷ b ∷ [])
          ⊎ ((tail : Bytes) × (valid tail ≡ true) × (parts ≡ a ∷ b ∷ tail ∷ [])))
full_of_parts [] h = absurd cc
full_of_parts (a ∷ []) h = absurd cc
full_of_parts (a ∷ b ∷ []) {full} h = elim (Bool-cases (is_full_ticket_id (a ++ b'-' ∷ b))) [
  | inr e ↦ absurd (let x = rw e at h in cc)
  | inl e ↦ let x = rw e at h in let f : full ≡ a ++ b'-' ∷ b = cc in (a, b, f, rw f e, inl refl)
]
full_of_parts (a ∷ b ∷ tail ∷ []) {full} h = elim (Bool-cases (is_full_ticket_id (a ++ b'-' ∷ b))) [
  | inr e ↦ absurd (let x = rw e at h in cc)
  | inl e ↦ elim (Bool-cases (valid tail)) [
    | inr v ↦ absurd (let x = rw (e, v) at h in cc)
    | inl v ↦
        let x = rw (e, v) at h in
        let f : full ≡ a ++ b'-' ∷ b = cc in (a, b, f, rw f e, inr (tail, v, refl))
  ]
]
full_of_parts (a ∷ b ∷ c ∷ d ∷ l) h = absurd cc

split_3-two : (stem a b : Bytes) → split_3 stem ≡ a ∷ b ∷ [] → stem ≡ a ++ b'-' ∷ b
unfolding split_3
split_3-two stem a b h = elim (Option-cases (cut_hyphen stem)) [
  | inl e ↦ absurd (let x = rw (e, split_3) at h in cc)
  | inr ((p, rest), e) ↦ elim (Option-cases (cut_hyphen rest)) [
    | inl f ↦
        let x = rw (e, f, split_3) at h in
        let pa : p ≡ a = cc in
        let rb : rest ≡ b = cc in rw (← pa, ← rb) (cut_hyphen-join stem p rest e)
    | inr ((q, tail), f) ↦ absurd (let x = rw (e, f, split_3) at h in cc)
  ]
]

split_3-three :
    (stem a b tail : Bytes)
    → split_3 stem ≡ a ∷ b ∷ tail ∷ []
    → stem ≡ (a ++ b'-' ∷ b) ++ b'-' ∷ tail
unfolding split_3
split_3-three stem a b tail h = elim (Option-cases (cut_hyphen stem)) [
  | inl e ↦ absurd (let x = rw (e, split_3) at h in cc)
  | inr ((p, rest), e) ↦ elim (Option-cases (cut_hyphen rest)) [
    | inl f ↦ absurd (let x = rw (e, f, split_3) at h in cc)
    | inr ((q, t), f) ↦
        let x = rw (e, f, split_3) at h in
        let pa : p ≡ a = cc in
        let qb : q ≡ b = cc in
        let tt' : t ≡ tail = cc in
        let outer = cut_hyphen-join stem p rest e in
        let inner = cut_hyphen-join rest q t f in
        rw (← pa, ← qb, ← tt')
          (outer
            ∙ ap (λ (r : Bytes). p ++ b'-' ∷ r) inner
            ∙ sym (append_assoc p (b'-' ∷ q) (b'-' ∷ t)))
  ]
]

no_hyphen-cut : (s : Bytes) → has_byte s b'-' ≡ false → cut_hyphen s ≡ none
unfolding cut_hyphen has_byte
no_hyphen-cut [] h = refl
no_hyphen-cut (c ∷ cs) h = ground (arith, no_hyphen-cut cs)

parts_of_bare : (full : Bytes) → FullId full → id_of_parts (split_3 full) ≡ some full
unfolding split_3
parts_of_bare full f =
    let first =
      cut_hyphen-append f.scope f.short
        (has_byte-scope f.scope (is_scope_name-chars f.scope f.scope_legal)) in
    let second =
      no_hyphen-cut f.short (has_byte-short f.short (is_short_id-chars f.short f.short_legal)) in
    let legal : is_full_ticket_id (f.scope ++ b'-' ∷ f.short) ≡ true =
      rw f.joined at ((is_full_ticket_id_iff full).1 f) in
    rw (f.joined, first, second, legal, split_3) refl

parts_of_slugged :
    (full tail : Bytes)
    → FullId full
    → valid tail ≡ true
    → id_of_parts (split_3 (full ++ b'-' ∷ tail)) ≡ some full
unfolding split_3
parts_of_slugged full tail f v =
    let first =
      cut_hyphen-append f.scope (f.short ++ b'-' ∷ tail)
        (has_byte-scope f.scope (is_scope_name-chars f.scope f.scope_legal)) in
    let second =
      cut_hyphen-append f.short tail
        (has_byte-short f.short (is_short_id-chars f.short f.short_legal)) in
    let legal : is_full_ticket_id (f.scope ++ b'-' ∷ f.short) ≡ true =
      rw f.joined at ((is_full_ticket_id_iff full).1 f) in
    rw
      (
        f.joined,
        append_assoc f.scope (b'-' ∷ f.short) (b'-' ∷ tail),
        first,
        second,
        legal,
        v,
        split_3,
      )
      refl

-- A file name is read as a ticket's with a full id exactly when the id is a legal full id and the name is the
-- id and ".md", or the id, a hyphen, a legal slug and ".md".
pub ticket_id_from_base_iff :
    (base full : Bytes)
    → (ticket_id_from_base base ≡ some full)
      ↔ ((is_full_ticket_id full ≡ true) × IsNameOf full base)
unfolding ticket_id_from_base
ticket_id_from_base_iff base full = (read, write)
  where
    read :
        ticket_id_from_base base ≡ some full → (is_full_ticket_id full ≡ true) × IsNameOf full base
    read h = elim (Option-cases (cut_suffix base md)) [
      | inl e ↦ absurd (let x = rw (e, ticket_id_from_base) at h in cc)
      | inr (stem, e) ↦
          let (a, b, f, legal, shape) =
            full_of_parts (split_3 stem) (rw (e, ticket_id_from_base) at h) in
          let whole = cut_suffix-join base md e in
          (
            legal,
            elim shape [
              | inl two ↦
                  bare (rw f (whole ∙ ap (λ (s : Bytes). s ++ md) (split_3-two stem a b two)))
              | inr (tail, v, three) ↦
                  slugged tail v
                    (rw f (whole ∙ ap (λ (s : Bytes). s ++ md) (split_3-three stem a b tail three)))
            ],
          )
    ]

    write :
        (is_full_ticket_id full ≡ true) × IsNameOf full base → ticket_id_from_base base ≡ some full
    write (legal, bare e) =
        rw (e, cut_suffix-append full md, ticket_id_from_base)
          (parts_of_bare full ((is_full_ticket_id_iff full).0 legal))
    write (legal, slugged tail v e) =
        rw (e, cut_suffix-append (full ++ b'-' ∷ tail) md, ticket_id_from_base)
          (parts_of_slugged full tail ((is_full_ticket_id_iff full).0 legal) v)
