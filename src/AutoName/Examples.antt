-- ===== src/AutoName/Examples.antt =====
-- Runs of internal/scope/autoname.go with the case of ASCII letters.
use tk.Prelude.{
  ℕ, ◌+◌, Bool, true, false, ◌&&◌, none, some, List, codes, ◌≡◌, refl, any, leb, ◌⊎◌, if◌then◌else◌,
}
use tk.Id.{is_scope_name, first_is_letter}
use tk.AutoName.{auto_name, is_auto_letter, seed_of, tokenise, last_segment}
use tk.AutoName.Names.{IsNameOf}
use tk.AutoName.Legal.{auto_name-legal}

abbrev upper : ℕ → Bool
upper c = leb b'A' c && leb c b'Z'

abbrev lower : ℕ → Bool
lower c = leb b'a' c && leb c b'z'

abbrev to_lower : ℕ → ℕ
to_lower c = if upper c then c + 32 else c

initials_test : auto_name upper lower to_lower (codes "/src/HTMLParser-two/") ≡ some (codes "hpt")
unfolding auto_name
initials_test = refl

auto_name-legal_example :
    ((auto_name upper lower to_lower (codes "/src/my_app") ≡ none)
      × (any is_auto_letter (
            seed_of upper lower to_lower
              (tokenise upper lower to_lower (last_segment (codes "/src/my_app"))))
          ≡ false))
    ⊎ ((name : List ℕ) × (auto_name upper lower to_lower (codes "/src/my_app") ≡ some name)
        × (any is_auto_letter (
              seed_of upper lower to_lower
                (tokenise upper lower to_lower (last_segment (codes "/src/my_app"))))
            ≡ true)
        × IsNameOf
            (seed_of upper lower to_lower
              (tokenise upper lower to_lower (last_segment (codes "/src/my_app"))))
            name
        × (is_scope_name name ≡ true)
        × (first_is_letter name ≡ true))
auto_name-legal_example = auto_name-legal upper lower to_lower (codes "/src/my_app")
