-- ===== src/Occupy/Occupied.antt =====
-- internal/scopefile/occupy.go: every short-id that a file of the scope holds is in the occupied set.
use tk.Prelude.{
  Bool, true, false, ◌&&◌, ◌||◌, Option, none, some, List, [], ◌∷◌, ◌++◌, Bytes, ◌≡◌, refl, map, In,
  bytes_eq, bytes_eq_iff, Bool-cases, Option-cases, inl, inr, ◌⊎◌,
}
use tk.Id.{extend, is_full_ticket_id, scope_of_full_id, trim_prefix}
use tk.Id.Extend.{extend-legal}
use tk.Frontmatter.{Field, Model}
use tk.Scopefile.{join_path, short_id_of_basename, archive_dir, design_dir}
use tk.Occupy.{
  Stat, DirEntry, Listing, entries, unreadable, does_not_exist, optional_dir_miss, is_holder, Paths,
  hold_name, hold_fence, model_of, occupy_file, occupy_entries, occupy_listing, occupy_dir,
  occupied_short_paths, occupied_short_ids,
}
use tk.Occupy.Holding.{Held, held, hold-Held, hold-keeps, hold_name-keeps, contains-keys}

module _ (unmarshal : Bytes → Option (List Field)) (stat : Bytes → Stat)
    (read_dir : Bytes → Listing) (read_file : Bytes → Option Bytes) where
  -- What a file holds: the short-id of its name, and that of an id of the scope in its fence.
  pub data Holds (scope path base short : Bytes) : Type 0 where
    by_name : short_id_of_basename base scope ≡ some short → Holds scope path base short
    by_fence :
        (data_ : Bytes) (m : Model)
        → read_file path ≡ some data_
        → model_of unmarshal stat read_dir read_file data_ ≡ some m
        → is_full_ticket_id m.id ≡ true
        → scope_of_full_id m.id ≡ scope
        → trim_prefix m.id (scope ++ b'-' ∷ []) ≡ short
        → Holds scope path base short

  hold_fence-keeps :
      (out : Paths) (scope path : Bytes) (m : Option Model) {s q : Bytes}
      → Held out s q
      → Held (hold_fence unmarshal stat read_dir read_file out scope path m) s q
  hold_fence-keeps out scope path none h = h
  hold_fence-keeps out scope path (some m) {s} {q} h =
      elim (Bool-cases (is_full_ticket_id m.id && bytes_eq (scope_of_full_id m.id) scope)) [
        | inl e ↦ rw e (hold-keeps out (trim_prefix m.id (scope ++ b'-' ∷ [])) path h)
        | inr e ↦ rw e h
      ]

  occupy_file-step :
      (out : Paths) (scope path base : Bytes) {out' : Paths}
      → occupy_file unmarshal stat read_dir read_file out scope path base ≡ some out'
      → (data_ : Bytes) × (read_file path ≡ some data_)
        × (out'
            ≡ hold_fence unmarshal stat read_dir read_file
                (hold_name out path (short_id_of_basename base scope))
                scope
                path
                (model_of unmarshal stat read_dir read_file data_))
  unfolding occupy_file
  occupy_file-step out scope path base h = elim (Option-cases (read_file path)) [
    | inl e ↦ absurd (let x = rw (e, occupy_file) at h in cc)
    | inr (data_, e) ↦ let x = rw (e, occupy_file) at h in (data_, e, cc)
  ]

  occupy_file-keeps :
      (out : Paths) (scope path base : Bytes) {out' : Paths} {s q : Bytes}
      → occupy_file unmarshal stat read_dir read_file out scope path base ≡ some out'
      → Held out s q
      → Held out' s q
  occupy_file-keeps out scope path base {out'} {s} {q} h k =
      let (data_, r, e) = occupy_file-step out scope path base h in
      rw e (
        hold_fence-keeps (hold_name out path (short_id_of_basename base scope)) scope path _
          (hold_name-keeps out path (short_id_of_basename base scope) k))

  occupy_file-Held :
      (out : Paths) (scope path base : Bytes) {out' : Paths} {short : Bytes}
      → occupy_file unmarshal stat read_dir read_file out scope path base ≡ some out'
      → Holds scope path base short
      → Held out' short path
  occupy_file-Held out scope path base {out'} {short} h (by_name n) =
      let (data_, r, e) = occupy_file-step out scope path base h in
      let named : Held (hold_name out path (short_id_of_basename base scope)) short path =
        rw n (hold-Held out short path) in
      rw e
        (hold_fence-keeps (hold_name out path (short_id_of_basename base scope)) scope path _ named)
  occupy_file-Held out scope path base {out'} {short} h
        (by_fence data_ m r parsed full of_scope is_short) =
      let (data', r', e) = occupy_file-step out scope path base h in
      let same : data' ≡ data_ = cc in
      let in_scope : (is_full_ticket_id m.id && bytes_eq (scope_of_full_id m.id) scope) ≡ true =
        rw (full, of_scope) ((bytes_eq_iff scope scope).1 refl) in
      rw (e, same, parsed, in_scope, is_short)
        (hold-Held (hold_name out path (short_id_of_basename base scope)) short path)

  occupy_entries-step :
      (out : Paths) (scope root : Bytes) (design : Bool) (e : DirEntry) (es : List DirEntry)
      {out' : Paths}
      → occupy_entries unmarshal stat read_dir read_file out scope root design (e ∷ es) ≡ some out'
      → ((is_holder scope design e ≡ false)
          × (occupy_entries unmarshal stat read_dir read_file out scope root design es ≡ some out'))
        ⊎ ((mid : Paths) × (occupy_file unmarshal stat read_dir read_file out scope
                (join_path root e.name)
                e.name
              ≡ some mid)
            × (occupy_entries unmarshal stat read_dir read_file mid scope root design es
                ≡ some out'))
  unfolding occupy_entries
  occupy_entries-step out scope root design e es h = elim (Bool-cases (is_holder scope design e)) [
    | inr f ↦ inl (f, rw f at h)
    | inl f ↦
        elim (Option-cases (
          occupy_file unmarshal stat read_dir read_file out scope (join_path root e.name) e.name)) [
            | inl n ↦ absurd (let x = rw (f, n) at h in cc)
            | inr (mid, n) ↦ inr (mid, n, rw (f, n) at h)
          ]
  ]

  occupy_entries-keeps :
      (out : Paths) (scope root : Bytes) (design : Bool) (es : List DirEntry) {out' : Paths}
      {s q : Bytes}
      → occupy_entries unmarshal stat read_dir read_file out scope root design es ≡ some out'
      → Held out s q
      → Held out' s q
  occupy_entries-keeps out scope root design [] {out'} h k =
      let same : some out ≡ some out' = unfold occupy_entries in h in
      let s : out ≡ out' = cc in rw (← s) k
  occupy_entries-keeps out scope root design (e ∷ es) {out'} {s} {q} h k =
      elim (occupy_entries-step out scope root design e es h) [
        | inl (f, r) ↦ occupy_entries-keeps out scope root design es r k
        | inr (mid, f, r) ↦
            occupy_entries-keeps mid scope root design es r
              (occupy_file-keeps out scope (join_path root e.name) e.name f k)
      ]

  occupy_entries-Held :
      (out : Paths) (scope root : Bytes) (design : Bool) (es : List DirEntry) {out' : Paths}
      (e : DirEntry) {short : Bytes}
      → occupy_entries unmarshal stat read_dir read_file out scope root design es ≡ some out'
      → In e es
      → is_holder scope design e ≡ true
      → Holds scope (join_path root e.name) e.name short
      → Held out' short (join_path root e.name)
  occupy_entries-Held out scope root design [] e h i t k = absurd i
  occupy_entries-Held out scope root design (d ∷ es) {out'} e {short} h i t k =
      elim (occupy_entries-step out scope root design d es h) [
        | inl (f, r) ↦ elim i [
          | inl same ↦ absurd (let x = rw same at t in cc)
          | inr later ↦ occupy_entries-Held out scope root design es e r later t k
        ]
        | inr (mid, f, r) ↦ elim i [
          | inl same ↦
              let f' : occupy_file unmarshal stat read_dir read_file out scope
                    (join_path root e.name) e.name
                  ≡ some mid =
                rw (← same) at f in
              occupy_entries-keeps mid scope root design es r
                (occupy_file-Held out scope (join_path root e.name) e.name f' k)
          | inr later ↦ occupy_entries-Held mid scope root design es e r later t k
        ]
      ]

  occupy_dir-keeps :
      (out : Paths) (scope root : Bytes) (design optional : Bool) {out' : Paths} {s q : Bytes}
      → occupy_dir unmarshal stat read_dir read_file out scope root design optional ≡ some out'
      → Held out s q
      → Held out' s q
  unfolding occupy_dir
  occupy_dir-keeps out scope root design optional {out'} {s} {q} h k = go (read_dir root) h
    where
      go :
          (l : Listing)
          → occupy_listing unmarshal stat read_dir read_file out scope root design optional l
            ≡ some out'
          → Held out' s q
      go (entries es) x = occupy_entries-keeps out scope root design es x k
      go unreadable x =
          elim (Bool-cases
            (does_not_exist (stat root) || optional && optional_dir_miss (stat root))) [
              | inl e ↦ let y = rw e at x in let same : out ≡ out' = cc in rw (← same) k
              | inr e ↦ absurd (let y = rw e at x in cc)
            ]

  occupy_dir-Held :
      (out : Paths) (scope root : Bytes) (design optional : Bool) {out' : Paths}
      (es : List DirEntry) (e : DirEntry) {short : Bytes}
      → occupy_dir unmarshal stat read_dir read_file out scope root design optional ≡ some out'
      → read_dir root ≡ entries es
      → In e es
      → is_holder scope design e ≡ true
      → Holds scope (join_path root e.name) e.name short
      → Held out' short (join_path root e.name)
  unfolding occupy_dir
  occupy_dir-Held out scope root design optional es e h l i t k =
      occupy_entries-Held out scope root design es e (rw (l, occupy_dir) at h) i t k

  -- The three directories of a scope that hold short-ids.
  pub data Place : Type 0 where
    at_root in_archive in_design : Place

  abbrev pub place_dir : Bytes → Place → Bytes
  place_dir dir at_root = dir
  place_dir dir in_archive = join_path dir archive_dir
  place_dir dir in_design = join_path dir design_dir

  abbrev pub is_design : Place → Bool
  is_design in_design = true
  is_design _ = false

  -- Where the three directories are read, a short-id that the name or the fence of a file of the scope holds is
  -- in the map, at a path that does not sort after that file's.
  pub occupied_short_paths-Held :
      (dir scope : Bytes) {paths : Paths} (w : Place) (es : List DirEntry) (e : DirEntry)
      {short : Bytes}
      → occupied_short_paths unmarshal stat read_dir read_file dir scope ≡ some paths
      → read_dir (place_dir dir w) ≡ entries es
      → In e es
      → is_holder scope (is_design w) e ≡ true
      → Holds scope (join_path (place_dir dir w) e.name) e.name short
      → Held paths short (join_path (place_dir dir w) e.name)
  unfolding occupied_short_paths
  occupied_short_paths-Held dir scope {paths} w es e {short} h l i t k =
      elim (Option-cases (occupy_dir unmarshal stat read_dir read_file [] scope dir false false)) [
        | inl n ↦ absurd (let x = rw (n, occupied_short_paths) at h in cc)
        | inr (a, n) ↦
            elim (Option-cases (
              occupy_dir unmarshal stat read_dir read_file a scope (join_path dir archive_dir) false
                true)) [
                  | inl m ↦ absurd (let x = rw (n, m, occupied_short_paths) at h in cc)
                  | inr (b, m) ↦ go w n m (rw (n, m, occupied_short_paths) at h) l t k
                ]
      ]
    where
      go :
          (w : Place) {a b : Paths}
          → occupy_dir unmarshal stat read_dir read_file [] scope dir false false ≡ some a
          → occupy_dir unmarshal stat read_dir read_file a scope
              (join_path dir archive_dir)
              false
              true
            ≡ some b
          → occupy_dir unmarshal stat read_dir read_file b scope
              (join_path dir design_dir)
              true
              true
            ≡ some paths
          → read_dir (place_dir dir w) ≡ entries es
          → is_holder scope (is_design w) e ≡ true
          → Holds scope (join_path (place_dir dir w) e.name) e.name short
          → Held paths short (join_path (place_dir dir w) e.name)
      go at_root {a} {b} n m h' l t k = occupy_dir-keeps b scope _ true true h' (
          occupy_dir-keeps a scope _ false true m
            (occupy_dir-Held [] scope dir false false es e n l i t k))
      go in_archive {a} {b} n m h' l t k =
          occupy_dir-keeps b scope _ true true h'
            (occupy_dir-Held a scope _ false true es e m l i t k)
      go in_design {a} {b} n m h' l t k = occupy_dir-Held b scope _ true true es e h' l i t k

  -- An id that Extend finds for the occupied set of a scope is held by no file of the scope, neither by
  -- the file's name nor by its fence.
  pub extend-free :
      (dir scope prefix : Bytes) {occupied : List Bytes} {c : Bytes} (w : Place)
      (es : List DirEntry) (e : DirEntry)
      → occupied_short_ids unmarshal stat read_dir read_file dir scope ≡ some occupied
      → extend prefix occupied ≡ some c
      → read_dir (place_dir dir w) ≡ entries es
      → In e es
      → is_holder scope (is_design w) e ≡ true
      → ¬ (Holds scope (join_path (place_dir dir w) e.name) e.name c)
  unfolding occupied_short_ids
  extend-free dir scope prefix {occupied} {c} w es e h x l i t k =
      elim (Option-cases (occupied_short_paths unmarshal stat read_dir read_file dir scope)) [
        | inl n ↦ absurd (let y = rw (n, occupied_short_ids) at h in cc)
        | inr (paths, n) ↦
            let y = rw (n, occupied_short_ids) at h in
            let same : map (λ (p : Bytes × Bytes). p.0) paths ≡ occupied = cc in
            let (legal, family, longer, free) = extend-legal prefix occupied x in
            elim (occupied_short_paths-Held dir scope w es e n l i t k) [
              | held p f r ↦ absurd (let there = rw same at (contains-keys c paths f) in cc)
            ]
      ]
