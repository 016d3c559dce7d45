-- ===== src/AutoName/Legal.antt =====
-- internal/scope/autoname.go: a derived name is a legal scope name, and only a seed without letters gives none.
use tk.Prelude.{
  ℕ, suc, Bool, true, false, none, some, List, ◌∷◌, ◌≡◌, refl, any, length, ltb, Bool-cases, inl,
  inr, ◌⊎◌,
}
use tk.Id.{scope_name_max, is_scope_name, first_is_letter, is_short_id_letter}
use tk.AutoName.{is_auto_letter, in_alphabet, last_segment, tokenise, seed_of, accept, auto_name}
use tk.AutoName.Names.{
  IsNameOf, sanitize-cases, within, legal_name, in_alphabet-is_lower_alnum, all-in_alphabet,
  letter-in_alphabet,
}

module _ (is_upper is_lower : ℕ → Bool) (to_lower : ℕ → ℕ) where
  -- AutoName fails exactly when the seed, the initials of the name's parts or the first two characters of its one
  -- part, has no letter of the alphabet. Else its result is a legal scope name that starts with a letter: what the
  -- seed has in the alphabet, from its first letter on, cut only at 20 characters.
  pub auto_name-legal :
      (basename : List ℕ)
      → ((auto_name is_upper is_lower to_lower basename ≡ none)
          × (any is_auto_letter (
                seed_of is_upper is_lower to_lower
                  (tokenise is_upper is_lower to_lower (last_segment basename)))
              ≡ false))
        ⊎ ((name : List ℕ) × (auto_name is_upper is_lower to_lower basename ≡ some name)
            × (any is_auto_letter (
                  seed_of is_upper is_lower to_lower
                    (tokenise is_upper is_lower to_lower (last_segment basename)))
                ≡ true)
            × IsNameOf
                (seed_of is_upper is_lower to_lower
                  (tokenise is_upper is_lower to_lower (last_segment basename)))
                name
            × (is_scope_name name ≡ true)
            × (first_is_letter name ≡ true))
  unfolding auto_name accept is_scope_name is_short_id_letter is_auto_letter
  auto_name-legal basename =
      elim (sanitize-cases is_upper is_lower to_lower (
        seed_of is_upper is_lower to_lower
          (tokenise is_upper is_lower to_lower (last_segment basename)))) [
            | inl (e, absent) ↦ inl (rw (e, auto_name) refl, absent)
            | inr (c, cs, e, first, rest, short, has, made) ↦
                let fits : ltb scope_name_max (length (c ∷ cs)) ≡ false =
                  within (suc (length cs)) short in
                let here : in_alphabet c ≡ true = letter_in c first in
                inr (
                  c ∷ cs,
                  rw (e, fits, first, rest, auto_name, accept) refl,
                  has,
                  made,
                  legal_name c cs short (in_alphabet-is_lower_alnum c here)
                      (all-in_alphabet cs rest),
                  first,
                )
          ]
    where
      letter_in : (c : ℕ) → is_auto_letter c ≡ true → in_alphabet c ≡ true
      letter_in c h = elim (Bool-cases (in_alphabet c)) [
        | inl e ↦ e
        | inr e ↦ absurd (let f = letter-in_alphabet c e in cc)
      ]
