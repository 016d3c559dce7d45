-- ===== src/Resolve/Examples.antt =====
-- A run of internal/resolve/resolve.go on two nested code-roots.
use tk.Prelude.{Bytes, codes, [], ◌∷◌}
use tk.Resolve.{Entry, Scopes, longest_prefix}
use tk.Resolve.Longest.{IsLongest, longest_prefix-IsLongest}

abbrev same : Bytes → Bytes
same p = p

abbrev at : Bytes → Entry
at p = record { root = p; dir = p }

abbrev registered : Scopes
registered = (codes "a", at (codes "/src")) ∷ (codes "b", at (codes "/src/b")) ∷ []

longest_prefix-IsLongest_example :
    IsLongest same (codes "/src/b/c") registered (longest_prefix same registered (codes "/src/b/c"))
longest_prefix-IsLongest_example = longest_prefix-IsLongest same registered (codes "/src/b/c")
