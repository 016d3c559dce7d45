-- ===== src/Title/Examples.antt =====
-- Runs of internal/title/title.go.
use tk.Prelude.{codes, ◌≡◌, refl, bytes_eq}
use tk.Title.{extract}

extract_test : extract (codes "text\n## Sub\n#   \n#  The title \nmore") ≡ codes "The title"
unfolding extract bytes_eq
extract_test = refl
