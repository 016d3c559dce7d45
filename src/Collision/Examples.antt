-- ===== src/Collision/Examples.antt =====
-- Runs of internal/collision/collision.go on small files.
use tk.Prelude.{ℕ, not, Option, none, some, [], ◌∷◌, Bytes, codes, ◌≡◌}
use tk.Collision.{Member, keep_before, parse_instant}
use tk.Collision.Strict.{keep_before-decides, SameKeys}

-- A parser that reads one character, and a hash that keeps its argument.
abbrev one_char : Bytes → Option ℕ
one_char (c ∷ []) = some c
one_char s = none

abbrev keep_all : Bytes → Bytes
keep_all b = b

abbrev undated : Member
undated = record {
  created = [];
  basename = codes "a.md";
  raw = codes "x";
  path = codes "done/a.md";
}

abbrev first : Member
first = record {
  created = codes "1";
  basename = codes "a.md";
  raw = codes "y";
  path = codes "a.md";
}

abbrev second : Member
second = record {
  created = codes "2";
  basename = codes "a.md";
  raw = codes "x";
  path = codes "b/a.md";
}

differ : ¬ SameKeys one_char keep_all first second
unfolding parse_instant
differ s = absurd (let p = s.path in cc)

keep_before-decides_example :
    keep_before one_char keep_all first second ≡ not (keep_before one_char keep_all second first)
keep_before-decides_example = keep_before-decides one_char keep_all first second differ
