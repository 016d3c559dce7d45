-- ===== src/Id/Examples.antt =====
-- Ids at concrete inputs.
use tk.Prelude.{
  true, false, List, [], ◌∷◌, Bytes, ◌≡◌, ◌<◌, refl, codes, bytes_eq, length, contains, ◌↔◌,
}
use tk.Id.Extend.{Extended, extend-Extended, extend-legal}
use tk.Id.Forms.{rewrite_prefix-rewrite_prefix, is_full_ticket_id_iff, FullId}
use tk.Id.Mint.{mint-legal, letters, mint_blocked-letters}
use tk.Id.{
  is_lower_alnum, is_short_id_char, is_short_id_letter, is_scope_name, is_short_id, short_id_min,
  is_full_ticket_id, scope_of_full_id, rewrite_prefix, mint, extend, short_in_family, mint_blocked,
  blocked_letter_runs,
}

rewrite_prefix-rewrite_prefix_example :
    (is_full_ticket_id (rewrite_prefix (codes "app-ab2c") (codes "app") (codes "web")) ≡ true)
    × (scope_of_full_id (rewrite_prefix (codes "app-ab2c") (codes "app") (codes "web"))
        ≡ codes "web")
    × (rewrite_prefix
          (rewrite_prefix (codes "app-ab2c") (codes "app") (codes "web"))
          (codes "web")
          (codes "app")
        ≡ codes "app-ab2c")
unfolding is_full_ticket_id scope_of_full_id is_scope_name is_short_id is_lower_alnum
    is_short_id_char is_short_id_letter
rewrite_prefix-rewrite_prefix_example =
    rewrite_prefix-rewrite_prefix (codes "app-ab2c") (codes "app") (codes "web") refl refl refl

abbrev noise : Bytes
noise = 255 ∷ 24 ∷ 0 ∷ 1 ∷ 3 ∷ 2 ∷ 4 ∷ 5 ∷ []

mint-legal_example : (is_short_id (codes "bb4f") ≡ true) × (length (codes "bb4f") ≡ short_id_min)
unfolding mint
mint-legal_example = mint-legal noise (codes "bb4f") [] refl

abbrev taken_ids : List Bytes
taken_ids = codes "ab2ca" ∷ codes "ab2c" ∷ []

extend-legal_example :
    (is_short_id (codes "ab2cb") ≡ true)
    × (short_in_family (codes "ab2cb") (codes "ab2c") ≡ true)
    × (length (codes "ab2c") < length (codes "ab2cb"))
    × (contains taken_ids (codes "ab2cb") ≡ false)
unfolding extend is_short_id is_short_id_char is_short_id_letter bytes_eq
extend-legal_example = extend-legal (codes "ab2c") taken_ids {c = codes "ab2cb"} refl

extend-Extended_example : Extended (codes "ab2c") taken_ids 1 (extend (codes "ab2c") taken_ids)
unfolding is_short_id is_short_id_char is_short_id_letter
extend-Extended_example = extend-Extended (codes "ab2c") taken_ids refl

is_full_ticket_id_iff_example :
    (is_full_ticket_id (codes "app-ab2c") ≡ true) ↔ FullId (codes "app-ab2c")
is_full_ticket_id_iff_example = is_full_ticket_id_iff (codes "app-ab2c")

mint_blocked-letters_example :
    mint_blocked (codes "tw2at9") ≡ contains blocked_letter_runs (letters (codes "tw2at9"))
mint_blocked-letters_example = mint_blocked-letters (codes "tw2at9")
