-- ===== src/Schema/Examples.antt =====
-- Runs of internal/scopeconfig/scopeconfig.go on a small schema.
use tk.Prelude.{
  true, none, some, [], ◌∷◌, List, codes, Bytes, ◌≡◌, ◌↔◌, refl, contains, bytes_eq, lookup,
  has_key,
}
use tk.Status.{category_active, category_done, Customs, is_builtin, valid_category}
use tk.Frontmatter.{Model, no_model, item, values, text}
use tk.Schema.{
  Schema, FieldDecl, field_string, field_int, validate_statuses, missing_required, name_matches,
}
use tk.Schema.Declared.{Declares, validate_statuses_iff}
use tk.Schema.Populated.{IsSupplied}
use tk.Schema.Missing.{missing_required_iff}

abbrev raw : List (Bytes × Bytes)
raw = (codes "parked", codes "active") ∷ (codes "shipped", codes "done") ∷ []

abbrev customs : Customs
customs = (codes "parked", category_active) ∷ (codes "shipped", category_done) ∷ []

validate_statuses_iff_example : (validate_statuses raw ≡ some customs) ↔ Declares raw customs
validate_statuses_iff_example = validate_statuses_iff raw customs

validate_statuses_test : validate_statuses raw ≡ some customs
unfolding validate_statuses name_matches is_builtin lookup bytes_eq valid_category
validate_statuses_test = refl

abbrev owner : FieldDecl
owner = record { type = field_string; required = true; enum = none }

abbrev schema : Schema
schema = record {
  name = codes "tk";
  auto_commit = true;
  statuses = [];
  fields =
      (codes "owner", owner)
      ∷ (codes "size", record owner { type = field_int; required = true })
      ∷ [];
}

abbrev with_owner : Model
with_owner = record no_model {
  custom = item (codes "owner") (values (text (codes "ada") ∷ [])) ∷ [];
}

missing_required_iff_example :
    (contains (missing_required schema with_owner) (codes "size") ≡ true) ↔ (
      (f : FieldDecl) × (lookup (codes "size") schema.fields ≡ some f)
      × (f.required ≡ true)
      × ¬ (IsSupplied with_owner.custom (codes "size") f.type))
unfolding has_key bytes_eq
missing_required_iff_example =
    missing_required_iff schema with_owner (codes "size") (refl, (refl, tt))
