-- ===== src/Occupy/Examples.antt =====
-- Runs of internal/scopefile/occupy.go on a scope of one ticket and one archived ticket.
use tk.Prelude.{
  true, false, Option, none, some, List, [], ◌∷◌, Bytes, codes, ◌≡◌, refl, inl, bytes_eq,
  if◌then◌else◌,
}
use tk.Id.{
  extend, is_full_ticket_id, is_scope_name, is_short_id, is_short_id_char, is_lower_alnum,
  cut_hyphen, has_byte, short_id_alphabet, letter_alphabet, digit_alphabet, has_prefix, trim_prefix,
}
use tk.Frontmatter.{Field}
use tk.Scopefile.{join_path, short_id_of_basename}
use tk.Occupy.{
  Stat, not_exist, DirEntry, Listing, entries, unreadable, is_holder, occupied_short_paths,
  occupied_short_ids,
}
use tk.Occupy.Holding.{Held}
use tk.Occupy.Occupied.{
  Holds, by_name, in_archive, place_dir, occupied_short_paths-Held, extend-free,
}

abbrev board : Bytes
board = codes "/b"

abbrev one : DirEntry
one = record { name = codes "wc-ab2c.md"; is_dir = false }

abbrev two : DirEntry
two = record { name = codes "wc-ab2ca-old.md"; is_dir = false }

abbrev undecoded : Bytes → Option (List Field)
undecoded interior = none

abbrev nothing_at : Bytes → Stat
nothing_at path = not_exist

abbrev list_of : Bytes → Listing
list_of dir =
    if bytes_eq dir board
    then entries (one ∷ [])
    else if bytes_eq dir (codes "/b/archive")
    then entries (two ∷ [])
    else unreadable

abbrev empty_file : Bytes → Option Bytes
empty_file path = some []

paths_run :
    occupied_short_paths undecoded nothing_at list_of empty_file board (codes "wc")
    ≡ some (
        (codes "ab2c", codes "/b/wc-ab2c.md")
        ∷ (codes "ab2ca", codes "/b/archive/wc-ab2ca-old.md")
        ∷ [])
unfolding occupied_short_paths bytes_eq is_short_id tk.Id.is_short_id_letter is_short_id_char
paths_run = refl

ids_run :
    occupied_short_ids undecoded nothing_at list_of empty_file board (codes "wc")
    ≡ some (codes "ab2c" ∷ codes "ab2ca" ∷ [])
unfolding occupied_short_ids bytes_eq is_short_id tk.Id.is_short_id_letter is_short_id_char
ids_run = refl

extend_run : extend (codes "ab2c") (codes "ab2c" ∷ codes "ab2ca" ∷ []) ≡ some (codes "ab2cb")
unfolding extend bytes_eq is_short_id tk.Id.is_short_id_letter is_short_id_char
extend_run = refl

archive_listed :
    list_of (place_dir undecoded nothing_at list_of empty_file board in_archive)
    ≡ entries (two ∷ [])
unfolding bytes_eq join_path
archive_listed = refl

two_holds : is_holder (codes "wc") false two ≡ true
unfolding is_holder bytes_eq is_short_id tk.Id.is_short_id_letter is_short_id_char
two_holds = refl

two_name : short_id_of_basename two.name (codes "wc") ≡ some (codes "ab2ca")
unfolding short_id_of_basename bytes_eq is_short_id tk.Id.is_short_id_letter is_short_id_char
two_name = refl

abbrev two_path : Bytes
two_path = join_path (place_dir undecoded nothing_at list_of empty_file board in_archive) two.name

occupied_short_paths-Held_example :
    Held
      ((codes "ab2c", codes "/b/wc-ab2c.md")
        ∷ (codes "ab2ca", codes "/b/archive/wc-ab2ca-old.md")
        ∷ [])
      (codes "ab2ca")
      two_path
occupied_short_paths-Held_example =
    occupied_short_paths-Held undecoded nothing_at list_of empty_file board (codes "wc") in_archive
      (two ∷ []) two paths_run archive_listed (inl refl) two_holds (by_name two_name)

extend-free_example :
    ¬ (Holds undecoded nothing_at list_of empty_file (codes "wc") two_path two.name (codes "ab2cb"))
extend-free_example =
    extend-free undecoded nothing_at list_of empty_file board (codes "wc") (codes "ab2c") in_archive
      (two ∷ []) two ids_run extend_run archive_listed (inl refl) two_holds
