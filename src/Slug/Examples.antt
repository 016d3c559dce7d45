-- ===== src/Slug/Examples.antt =====
-- Runs of internal/slug/slug.go, with a normalisation that keeps its argument.
use tk.Prelude.{ℕ, List, Bytes, true, codes, ◌≡◌, refl}
use tk.Slug.{slugify, valid, tokens_from, is_kept, slug_of_tokens}
use tk.Slug.Legal.{slugify-valid}

abbrev same : Bytes → List ℕ
same b = b

slugify-valid_example : valid (slugify same (codes " Add  a Ticket! ")) ≡ true
slugify-valid_example = slugify-valid same (codes " Add  a Ticket! ")

slugify_test : slugify same (codes " Add  a Ticket! ") ≡ codes "add-a-ticket"
unfolding slugify tokens_from slug_of_tokens is_kept tk.Frontmatter.join
slugify_test = refl
