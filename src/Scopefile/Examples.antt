-- ===== src/Scopefile/Examples.antt =====
-- Runs of internal/scopefile/scopefile.go on file names.
use tk.Prelude.{true, some, Bytes, codes, ◌≡◌, refl, ◌↔◌, bytes_eq}
use tk.Id.{
  is_full_ticket_id, is_scope_name, is_short_id, is_short_id_char, is_lower_alnum, cut_hyphen,
  has_byte, short_id_alphabet, letter_alphabet, digit_alphabet, has_prefix,
}
use tk.Slug.{valid}
use tk.Scopefile.{
  ticket_id_from_base, cut_suffix, split_3, is_allowlisted, rel_under, last_slash, join_path,
}
use tk.Scopefile.Names.{IsNameOf, ticket_id_from_base_iff}

abbrev file_name : Bytes
file_name = codes "wc-ab2c-line-up.md"

ticket_id_from_base_iff_example :
    (ticket_id_from_base file_name ≡ some (codes "wc-ab2c"))
    ↔ ((is_full_ticket_id (codes "wc-ab2c") ≡ true) × IsNameOf (codes "wc-ab2c") file_name)
ticket_id_from_base_iff_example = ticket_id_from_base_iff file_name (codes "wc-ab2c")

read_slugged : ticket_id_from_base file_name ≡ some (codes "wc-ab2c")
unfolding ticket_id_from_base cut_suffix split_3 bytes_eq valid is_full_ticket_id cut_hyphen
    is_scope_name is_lower_alnum is_short_id tk.Id.is_short_id_letter is_short_id_char
read_slugged = refl

archived_ticket : is_allowlisted (codes "/b/archive/wc-ab2c.md") (codes "/b") ≡ true
unfolding is_allowlisted bytes_eq rel_under last_slash join_path has_prefix is_full_ticket_id
    is_scope_name is_lower_alnum is_short_id tk.Id.is_short_id_letter is_short_id_char
archived_ticket = refl
