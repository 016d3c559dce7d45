-- ===== src/Frontmatter/Examples.antt =====
-- Runs of internal/frontmatter/frontmatter.go on small tickets.
use tk.Prelude.{Bool, true, false, [], ◌∷◌, codes, ◌≡◌, refl, some, none, bytes_eq, contains, map}
use tk.Frontmatter.{
  Model, no_model, item, Value, scalar, strings, values, text, split, compose, is_fence, decode,
  serialize_items, is_builtin_key, remove_custom, canonical_meta_key, key_tags,
}
use tk.Frontmatter.Fence.{split-compose, unlines}
use tk.Frontmatter.Items.{IsReread, reread, with_custom, decode-serialize_items}

abbrev ticket : Model
ticket = record no_model {
  id = codes "tk-abcd";
  status = codes "todo";
  tags = codes "ui" ∷ [];
  summary = codes "one line";
  custom =
      item (codes "owner") (scalar (text (codes "ada")))
      ∷ item (codes "areas") (strings (codes "ui" ∷ []))
      ∷ [];
}

split-compose_example :
    split (compose (unlines (codes "id: x" ∷ codes "----" ∷ [])) (codes "---\nbody")) ≡ record {
      interior = unlines (codes "id: x" ∷ codes "----" ∷ []);
      body = codes "---\nbody";
      present = true;
    }
unfolding is_fence bytes_eq
split-compose_example =
    split-compose (codes "id: x" ∷ codes "----" ∷ []) (codes "---\nbody")
      (refl, refl, (refl, refl, tt))

-- A decoder that gives a list of strings as an `[]any`.
abbrev through : Value → Value
through (scalar s) = scalar s
through (strings l) = values (map text l)
through (values l) = values l

through-IsReread : IsReread through
through-IsReread = record { of_text = λ s. refl; of_list = λ l. refl }

decode-serialize_items_example :
    decode no_model (reread through (serialize_items ticket))
    ≡ some (with_custom ticket (reread through ticket.custom))
unfolding is_builtin_key contains bytes_eq
decode-serialize_items_example =
    decode-serialize_items through through-IsReread ticket (refl, (refl, tt))

remove_custom_test :
    remove_custom ticket (codes "owner")
    ≡ (record ticket { custom = item (codes "areas") (strings (codes "ui" ∷ [])) ∷ [] }, true)
unfolding remove_custom bytes_eq
remove_custom_test = refl

canonical_meta_key_test : canonical_meta_key (codes "tag") ≡ key_tags
unfolding canonical_meta_key tk.Prelude.lookup bytes_eq
canonical_meta_key_test = refl
