-- ===== src/FmMerge/Examples.antt =====
-- Runs of internal/fmmerge/fmmerge.go on small tickets.
use tk.Prelude.{
  ℕ, true, false, not, Option, none, [], ◌∷◌, ◌&&◌, ◌||◌, Bytes, codes, ◌≡◌, ◌≢◌, refl, ap,
  contains, length, ◌<◌, if◌then◌else◌, bytes_eq, bytes_lt,
}
use tk.Frontmatter.{Model, no_model}
use tk.Schema.{Schema}
use tk.Status.{todo, done, in_progress, triaged, blocked}
use tk.Collision.{keep_before}
use tk.Collision.Strict.{SameKeys}
use tk.Id.{
  short_in_family, is_full_ticket_id, is_short_id, is_scope_name, is_short_id_char,
  is_short_id_letter, is_lower_alnum, extend,
}
use tk.FmMerge.{
  merge_list, MergeMeta, pick_ours, merge_status, three_way, StatusMerge, stage_member, add_add,
  rename, RenameDirective, side_theirs, short_of_full,
}
use tk.FmMerge.Lists.{contains-merge_list}
use tk.FmMerge.Scalars.{pick_ours_swap, swap_dates}
use tk.FmMerge.Disputes.{merge_status_swap}
use tk.FmMerge.Outcomes.{Explained, three_way-Explained}
use tk.FmMerge.AddAdd.{add_add_swap, add_add-rename, relabel}

abbrev keep_all : Bytes → Bytes
keep_all b = b

abbrev no_time : Bytes → Option ℕ
no_time b = none

abbrev plain : Schema
plain = record { name = codes "tk"; auto_commit = true; statuses = []; fields = [] }

abbrev ticket : Bytes → Model
ticket s = record no_model { id = codes "tk-abcd"; status = s; changed = s; created = codes "1" }

abbrev same_date : MergeMeta
same_date = record { ours_date = 3; theirs_date = 3; occupied = codes "abcda" ∷ [] }

contains-merge_list_example :
    contains
      (merge_list
        (codes "a" ∷ codes "b" ∷ [])
        (codes "a" ∷ codes "c" ∷ [])
        (codes "b" ∷ codes "a" ∷ []))
      (codes "b")
    ≡ (if contains (codes "a" ∷ codes "b" ∷ []) (codes "b")
        then contains (codes "a" ∷ codes "c" ∷ []) (codes "b")
          && contains (codes "b" ∷ codes "a" ∷ []) (codes "b")
        else contains (codes "a" ∷ codes "c" ∷ []) (codes "b")
          || contains (codes "b" ∷ codes "a" ∷ []) (codes "b"))
contains-merge_list_example =
    contains-merge_list (codes "a" ∷ codes "b" ∷ []) (codes "a" ∷ codes "c" ∷ [])
      (codes "b" ∷ codes "a" ∷ []) (codes "b")

differ : codes "x" ≢ codes "y"
unfolding bytes_eq
differ h = absurd (let p : true ≡ false = ap (bytes_eq (codes "x")) h in cc)

pick_ours_swap_example :
    pick_ours keep_all (swap_dates same_date) (codes "y") (codes "x")
    ≡ not (pick_ours keep_all same_date (codes "x") (codes "y"))
pick_ours_swap_example = pick_ours_swap keep_all same_date (codes "x") (codes "y") differ

merge_status_swap_example :
    merge_status plain false (ticket todo) (ticket done) (ticket in_progress)
    ≡ merge_status plain true (ticket todo) (ticket in_progress) (ticket done)
merge_status_swap_example =
    merge_status_swap plain true (ticket todo) (ticket in_progress) (ticket done)

abbrev moved : StatusMerge
moved = record { status = triaged; conflict = []; dispute = false }

three_way-Explained_example :
    Explained plain
      (ticket todo)
      (ticket done)
      (ticket blocked)
      (three_way plain true (ticket todo) (ticket done) (ticket blocked))
three_way-Explained_example =
    three_way-Explained plain true (ticket todo) (ticket done) (ticket blocked)

differ_members :
    ¬ SameKeys no_time keep_all
      (stage_member (ticket todo) (codes "x"))
      (stage_member (ticket todo) (codes "y"))
differ_members s = differ s.digest

add_add_swap_example :
    add_add no_time keep_all (ticket todo) (ticket todo) (codes "y") (codes "x") same_date
    ≡ relabel
        (add_add no_time keep_all (ticket todo) (ticket todo) (codes "x") (codes "y") same_date)
add_add_swap_example =
    add_add_swap no_time keep_all (ticket todo) (ticket todo) (codes "x") (codes "y") same_date
      differ_members

abbrev directive : RenameDirective
directive = record {
  loser = side_theirs;
  collided_id = codes "tk-abcd";
  new_short_id = codes "abcdb";
}

renamed :
    add_add no_time keep_all (ticket todo) (ticket todo) (codes "x") (codes "y") same_date
    ≡ rename directive
unfolding add_add bytes_eq is_full_ticket_id is_scope_name is_short_id is_short_id_char
    is_short_id_letter is_lower_alnum short_of_full extend keep_before bytes_lt
renamed = refl

add_add-rename_example :
    (codes "tk-abcd" ≡ codes "tk-abcd")
    × (codes "tk-abcd" ≡ codes "tk-abcd")
    × (is_full_ticket_id (codes "tk-abcd") ≡ true)
    × (short_in_family (codes "abcdb") (short_of_full (codes "tk-abcd")) ≡ true)
    × (length (short_of_full (codes "tk-abcd")) < length (codes "abcdb"))
    × (contains same_date.occupied (codes "abcdb") ≡ false)
add_add-rename_example =
    add_add-rename no_time keep_all (ticket todo) (ticket todo) (codes "x") (codes "y") same_date
      renamed
