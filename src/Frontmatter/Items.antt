-- ===== src/Frontmatter/Items.antt =====
-- internal/frontmatter/frontmatter.go: the items of `Serialize` and the loop of `Parse`.
use tk.Prelude.{
  false, some, List, [], ◌∷◌, ◌++◌, Bytes, ◌≡◌, refl, ◌∙◌, append_assoc, append-nil, ap, contains,
  bytes_eq, map,
}
use tk.Frontmatter.{
  is_builtin_key, Field, Model, no_model, decode_item, decode, list_item, optional_item,
  serialize_items, key_changed, key_depends, key_related, key_tags, key_links, key_summary,
  key_status_conflict, key_id, key_status, key_order, key_created, text_item, assign_builtin,
  as_scalar, string_list, as_scalar_string, Value, scalar, strings, values, text, scalar_strings,
}

-- No custom key is the name of a builtin key.
abbrev pub AreCustom : List Field → Type 0
AreCustom [] = Unit
AreCustom (f ∷ fs) = (is_builtin_key f.key ≡ false) × AreCustom fs

abbrev pub with_custom : Model → List Field → Model
with_custom m c = record m { custom = c }

-- What YAML makes of a value that is written and read again: a string stays a string, and a list of strings comes
-- back as an `[]any` of them. Any other value of a custom key is left open.
pub record IsReread (through : Value → Value) : Type 0 where
  pub of_text : (s : Bytes) → through (scalar (text s)) ≡ scalar (text s)
  pub of_list : (l : List Bytes) → through (strings l) ≡ values (map text l)

abbrev pub reread : (Value → Value) → List Field → List Field
reread through [] = []
reread through (f ∷ fs) = record f { value = through f.value } ∷ reread through fs

scalar_strings-text : (l : List Bytes) → scalar_strings (map text l) ≡ l
unfolding scalar_strings as_scalar_string
scalar_strings-text [] = refl
scalar_strings-text (s ∷ l) = ap (◌∷◌ s) (scalar_strings-text l)

module _ (through : Value → Value) (ok : IsReread through) where
  -- A list that was written reads back, by its branch for an `[]any`.
  string_list-through : (l : List Bytes) → string_list (through (strings l)) ≡ some l
  unfolding string_list
  string_list-through l = rw (ok.of_list l, string_list) (ap some (scalar_strings-text l))

  as_scalar-through : (s : Bytes) → as_scalar (through (scalar (text s))) ≡ s
  unfolding as_scalar as_scalar_string
  as_scalar-through s = rw (ok.of_text s, as_scalar) refl

  decode-custom :
      (m : Model) (before fs : List Field)
      → AreCustom fs
      → decode (with_custom m before) (reread through fs)
        ≡ some (with_custom m (before ++ reread through fs))
  unfolding decode decode_item contains bytes_eq
  decode-custom m before [] c = rw append-nil refl
  decode-custom m before (f ∷ fs) (h, c) = rw h (
      decode-custom m (before ++ record f { value = through f.value } ∷ []) fs c
      ∙ ap (λ l. some (with_custom m l))
          (append_assoc before (record f { value = through f.value } ∷ []) (reread through fs)))

  -- Reading one optional key into a model that lacks it.
  read_changed :
      (m : Model) (v : Bytes) (rest : List Field)
      → decode (record m { changed = [] }) (reread through (optional_item key_changed v ++ rest))
        ≡ decode (record m { changed = v }) (reread through rest)
  unfolding decode decode_item assign_builtin optional_item is_builtin_key contains bytes_eq
  read_changed m [] rest = refl
  read_changed m (c ∷ cs) rest = rw (as_scalar-through (c ∷ cs)) refl

  read_summary :
      (m : Model) (v : Bytes) (rest : List Field)
      → decode (record m { summary = [] }) (reread through (optional_item key_summary v ++ rest))
        ≡ decode (record m { summary = v }) (reread through rest)
  unfolding decode decode_item assign_builtin optional_item is_builtin_key contains bytes_eq
  read_summary m [] rest = refl
  read_summary m (c ∷ cs) rest = rw (as_scalar-through (c ∷ cs)) refl

  read_depends :
      (m : Model) (v : List Bytes) (rest : List Field)
      → decode (record m { depends = [] }) (reread through (list_item key_depends v ++ rest))
        ≡ decode (record m { depends = v }) (reread through rest)
  unfolding decode decode_item assign_builtin list_item is_builtin_key contains bytes_eq
  read_depends m [] rest = refl
  read_depends m (s ∷ l) rest = rw (string_list-through (s ∷ l), decode) refl

  read_related :
      (m : Model) (v : List Bytes) (rest : List Field)
      → decode (record m { related = [] }) (reread through (list_item key_related v ++ rest))
        ≡ decode (record m { related = v }) (reread through rest)
  unfolding decode decode_item assign_builtin list_item is_builtin_key contains bytes_eq
  read_related m [] rest = refl
  read_related m (s ∷ l) rest = rw (string_list-through (s ∷ l), decode) refl

  read_tags :
      (m : Model) (v : List Bytes) (rest : List Field)
      → decode (record m { tags = [] }) (reread through (list_item key_tags v ++ rest))
        ≡ decode (record m { tags = v }) (reread through rest)
  unfolding decode decode_item assign_builtin list_item is_builtin_key contains bytes_eq
  read_tags m [] rest = refl
  read_tags m (s ∷ l) rest = rw (string_list-through (s ∷ l), decode) refl

  read_links :
      (m : Model) (v : List Bytes) (rest : List Field)
      → decode (record m { links = [] }) (reread through (list_item key_links v ++ rest))
        ≡ decode (record m { links = v }) (reread through rest)
  unfolding decode decode_item assign_builtin list_item is_builtin_key contains bytes_eq
  read_links m [] rest = refl
  read_links m (s ∷ l) rest = rw (string_list-through (s ∷ l), decode) refl

  read_status_conflict :
      (m : Model) (v : List Bytes) (rest : List Field)
      → decode
          (record m { status_conflict = [] })
          (reread through (list_item key_status_conflict v ++ rest))
        ≡ decode (record m { status_conflict = v }) (reread through rest)
  unfolding decode decode_item assign_builtin list_item is_builtin_key contains bytes_eq
  read_status_conflict m [] rest = refl
  read_status_conflict m (s ∷ l) rest = rw (string_list-through (s ∷ l), decode) refl

  read_texts :
      (m : Model) (i t o c : Bytes) (rest : List Field)
      → (decode m (reread through (text_item key_id i ∷ text_item key_status t ∷ rest))
          ≡ decode (record m { id = i; status = t }) (reread through rest))
        × (decode m (reread through (text_item key_order o ∷ rest))
            ≡ decode (record m { order = o }) (reread through rest))
        × (decode m (reread through (text_item key_created c ∷ rest))
            ≡ decode (record m { created = c }) (reread through rest))
  unfolding decode decode_item assign_builtin is_builtin_key contains bytes_eq
  read_texts m i t o c rest = (
    rw (as_scalar-through i, as_scalar-through t) refl,
    rw (as_scalar-through o) refl,
    rw (as_scalar-through c) refl,
  )

  -- Reading what YAML makes of the items that Serialize writes gives the model again, its custom keys in their
  -- order with the values that come back, when no custom key has the name of a builtin key. The hypothesis on
  -- YAML is that a string comes back as a string, and a list of strings as an `[]any` of them.
  pub decode-serialize_items :
      (m : Model)
      → AreCustom m.custom
      → decode no_model (reread through (serialize_items m))
        ≡ some (with_custom m (reread through m.custom))
  unfolding serialize_items
  decode-serialize_items m c =
      let m1 : Model = record no_model { id = m.id; status = m.status } in
      let m2 : Model = record m1 { changed = m.changed } in
      let m3 : Model = record m2 { order = m.order } in
      let m4 : Model = record m3 { depends = m.depends } in
      let m5 : Model = record m4 { related = m.related } in
      let m6 : Model = record m5 { tags = m.tags } in
      let m7 : Model = record m6 { created = m.created } in
      let m8 : Model = record m7 { links = m.links } in
      let m9 : Model = record m8 { summary = m.summary } in
      let m10 : Model = record m9 { status_conflict = m.status_conflict } in
      let texts = λ (n : Model). read_texts n m.id m.status m.order m.created in
      (texts no_model _).0
      ∙ read_changed m1 m.changed _
      ∙ (texts m2 _).1
      ∙ read_depends m3 m.depends _
      ∙ read_related m4 m.related _
      ∙ read_tags m5 m.tags _
      ∙ (texts m6 _).2
      ∙ read_links m7 m.links _
      ∙ read_summary m8 m.summary _
      ∙ read_status_conflict m9 m.status_conflict _
      ∙ decode-custom m10 [] m.custom c
