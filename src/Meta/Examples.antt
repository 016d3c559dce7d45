-- ===== src/Meta/Examples.antt =====
-- Runs of internal/writeengine/meta.go on a ticket with one tag and a declared int.
use tk.Prelude.{
  Bool, true, false, Option, none, some, List, [], ◌∷◌, ◌++◌, Bytes, codes, ◌≡◌, ◌≢◌, refl, inl,
  inr, ◌⊎◌, bytes_eq, contains, lookup,
}
use tk.Depgate.{Ticket}
use tk.Session.{open_session}
use tk.Status.{todo}
use tk.Frontmatter.{Model, no_model, key_tags}
use tk.Schema.{FieldDecl, field_int, Schema}
use tk.Meta.{
  Builtin, builtin_of, builtin_class, immutable, meta_set, meta_add, meta_remove, MetaKeyClass,
  single, multi, meta_get_value, classify_meta_key, plain_field, done, builtin_field,
}
use tk.Meta.Changes.{apply_meta_mutation}
use tk.Meta.Write.{MetaInput, MetaResult, meta}
use tk.Meta.Runs.{meta-other_keys}
use tk.Meta.Lists.{list_at, remove-add}
use tk.Meta.Values.{get-set, reading_of}

abbrev schema : Schema
schema = record {
  name = codes "tk";
  auto_commit = true;
  statuses = [];
  fields = (codes "size", plain_field field_int) ∷ [];
}

abbrev ticket : Ticket
ticket = record {
  path = codes "/b/tk-aaaa.md";
  scope = codes "tk";
  id = codes "tk-aaaa";
  status = todo;
  order_key = codes "a1";
  tags = [];
  archived = false;
  parse_error = false;
  schema_error = false;
}

abbrev before : Model
before = record no_model { id = codes "tk-aaaa"; tags = codes "ui" ∷ [] }

abbrev after : Model
after = record before { tags = codes "ui" ∷ codes "db" ∷ [] }

abbrev no_rows : Bytes → Bytes → List Ticket
no_rows scope full = []

abbrev always : Bytes → Bool
always scope = true

abbrev one_row : Bool → Bytes → List Ticket
one_row full arg = ticket ∷ []

abbrev file_of : Bytes → Option Model
file_of path = some before

abbrev input : MetaInput
input = record {
  lookup = record { arg = codes "aaaa"; query = []; by_full = false };
  op = meta_add;
  key = codes "tag";
  value = codes "db";
}

abbrev result : MetaResult
result = record { row = ticket; written = after; required_missing = [] }

meta_run :
    meta no_rows always always one_row file_of open_session schema (codes "tk") input ≡ done result
unfolding meta bytes_eq contains tk.Prelude.sort_by
meta_run = refl

meta-other_keys_example :
    (m : Model) × (some before ≡ some m)
    × ((k : Bytes) (class : MetaKeyClass) (field : FieldDecl)
        → (k ≢ key_tags) ⊎ ((b : Builtin) × (builtin_of k ≡ some b) × (builtin_class b ≡ immutable))
        → meta_get_value after k class field ≡ meta_get_value m k class field)
unfolding meta bytes_eq
meta-other_keys_example =
    meta-other_keys no_rows always always one_row file_of open_session schema (codes "tk") input
      meta_run

add_run :
    apply_meta_mutation before meta_add key_tags (codes "db") (builtin_field multi) ≡ done after
unfolding apply_meta_mutation bytes_eq contains
add_run = refl

tags_before : list_at before key_tags ≡ some (codes "ui" ∷ [])
unfolding list_at bytes_eq
tags_before = refl

db_is_new : contains (codes "ui" ∷ []) (codes "db") ≡ false
unfolding contains bytes_eq
db_is_new = refl

remove-add_example :
    (list_at after key_tags ≡ some (codes "ui" ∷ codes "db" ∷ []))
    × ((m2 : Model) × (apply_meta_mutation after meta_remove key_tags
            (codes "db")
            (builtin_field multi)
          ≡ done m2)
        × (list_at m2 key_tags ≡ some (codes "ui" ∷ []))
        × ((k : Bytes)
            → k ≢ key_tags
            → (class : MetaKeyClass) (any_field : FieldDecl)
            → meta_get_value m2 k class any_field ≡ meta_get_value before k class any_field))
remove-add_example =
    remove-add before key_tags (codes "db") (builtin_field multi) (codes "ui" ∷ []) add_run
      tags_before db_is_new

abbrev sized : Model
sized = record before {
  custom =
      record {
        key = codes "size";
        value = tk.Frontmatter.scalar (tk.Frontmatter.printed (codes "7"));
      }
      ∷ [];
}

size_class : classify_meta_key (codes "size") schema ≡ some (single, plain_field field_int)
unfolding classify_meta_key bytes_eq
size_class = refl

size_run :
    apply_meta_mutation before meta_set (codes "size") (codes "+007") (plain_field field_int)
    ≡ done sized
unfolding apply_meta_mutation bytes_eq
size_run = refl

get-set_example :
    meta_get_value sized (codes "size") single (plain_field field_int)
    ≡ reading_of field_int (codes "+007")
get-set_example =
    get-set before (codes "size") (codes "+007") schema (plain_field field_int) size_class size_run
