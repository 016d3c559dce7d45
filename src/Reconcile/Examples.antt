-- ===== src/Reconcile/Examples.antt =====
-- Runs of internal/reconcile/parse.go on a small ticket file.
use tk.Prelude.{
  bytes_eq, map, if◌then◌else◌, Bool, true, false, Option, none, some, List, [], ◌∷◌, Bytes, codes,
  ◌≡◌, refl,
}
use tk.Id.{is_full_ticket_id}
use tk.Frontmatter.{
  Field, Value, scalar, strings, values, text, item, text_item, Model, no_model, compose,
  serialize_items, is_fence,
}
use tk.Frontmatter.Fence.{unlines, AreInterior}
use tk.Reconcile.{Row, Edge, scope_of, contains_conflict_marker, parse_file}
use tk.Frontmatter.Items.{IsReread, reread}
use tk.Reconcile.Rows.{IsRowOf, parse_file-written}

abbrev ticket : Model
ticket = record no_model {
  id = codes "tk-ab2c";
  status = codes "todo";
  order = codes "a1";
  depends = codes "tk-cd3e" ∷ codes "gone" ∷ [];
}

abbrev lines : List Bytes
lines =
    codes "id: tk-ab2c"
    ∷ codes "status: todo"
    ∷ codes "order: \"a1\""
    ∷ codes "depends: [tk-cd3e, gone]"
    ∷ codes "created: \"\""
    ∷ []

-- A decoder that gives a list of strings as an `[]any`.
abbrev through : Value → Value
through (scalar s) = scalar s
through (strings l) = values (map text l)
through (values l) = values l

through-IsReread : IsReread through
through-IsReread = record { of_text = λ s. refl; of_list = λ l. refl }

-- The items of the one interior that it can read.
abbrev unmarshal : Bytes → Option (List Field)
unmarshal interior =
    if bytes_eq interior (unlines lines)
    then some (
        text_item (codes "id") (codes "tk-ab2c")
        ∷ text_item (codes "status") (codes "todo")
        ∷ text_item (codes "order") (codes "a1")
        ∷ item (codes "depends") (values (text (codes "tk-cd3e") ∷ text (codes "gone") ∷ []))
        ∷ text_item (codes "created") []
        ∷ [])
    else none

inside : AreInterior lines
unfolding is_fence tk.Prelude.bytes_eq
inside = (refl, refl, (refl, refl, (refl, refl, (refl, refl, (refl, refl, tt)))))

clean : contains_conflict_marker (unlines lines) ≡ false
unfolding contains_conflict_marker
clean = refl

full : is_full_ticket_id (codes "tk-ab2c") ≡ true
unfolding is_full_ticket_id tk.Id.is_scope_name tk.Id.is_lower_alnum tk.Id.is_short_id
    tk.Id.is_short_id_letter tk.Id.is_short_id_char
full = refl

own : scope_of (codes "tk-ab2c") ≡ codes "tk"
unfolding scope_of
own = refl

decoded : unmarshal (unlines lines) ≡ some (reread through (serialize_items ticket))
unfolding serialize_items bytes_eq
decoded = refl

parse_file-written_example :
    (row : Row) × (edges : List Edge) × (parse_file unmarshal
        (codes "/b/tk-ab2c.md")
        (codes "tk")
        (codes "tk-ab2c")
        false
        (some (compose (unlines lines) (codes "# A\n")))
      ≡ some (row, edges))
    × IsRowOf ticket (codes "# A\n") row edges
parse_file-written_example =
    parse_file-written unmarshal through through-IsReread (codes "/b/tk-ab2c.md") (codes "tk")
      (codes "tk-ab2c") false lines (codes "# A\n") ticket inside clean decoded tt full own
