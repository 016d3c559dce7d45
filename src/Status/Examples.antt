-- ===== src/Status/Examples.antt =====
-- A scope with two custom statuses.
use tk.Prelude.{[], ◌∷◌, ◌≡◌, refl, codes, bytes_eq, lookup, has_key, contains, sort_by}
use tk.Status.Names.{IsCustomMap, in_default_list-names}
use tk.Status.{
  Customs, category_active, category_done, todo, is_builtin, in_default_list, default_list_names,
  names_where, draft, triaged, in_progress, review, blocked,
}

abbrev customs : Customs
customs = (codes "waiting", category_active) ∷ (codes "abandoned", category_done) ∷ []

customs-IsCustomMap : IsCustomMap customs
unfolding is_builtin lookup bytes_eq has_key
customs-IsCustomMap = (refl, refl, (refl, refl, tt))

default_names :
    default_list_names customs
    ≡ draft ∷ triaged ∷ todo ∷ in_progress ∷ review ∷ blocked ∷ codes "waiting" ∷ []
unfolding default_list_names names_where lookup bytes_eq sort_by
default_names = refl

in_default_list-names_example :
    in_default_list (codes "waiting") customs
    ≡ contains (default_list_names customs) (codes "waiting")
in_default_list-names_example = in_default_list-names (codes "waiting") customs customs-IsCustomMap
