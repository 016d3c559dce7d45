-- ===== src/FmMerge/AddAdd.antt =====
-- internal/fmmerge/fmmerge.go: two new files that claim one id.
use tk.Prelude.{
  ℕ, Bool, true, false, ◌||◌, not, Option, none, some, [], Bytes, ◌≡◌, refl, arith, bytes_eq,
  bytes_eq_iff, bytes_eq_refl, contains, length, ◌<◌, Bool-cases, Option-cases, inl, inr,
}
use tk.Frontmatter.{Model}
use tk.Collision.{keep_before}
use tk.Collision.Strict.{SameKeys, keep_before-decides}
use tk.Id.{is_full_ticket_id, extend, short_in_family}
use tk.Id.Extend.{extend-legal}
use tk.FmMerge.{
  Result, rename, RenameDirective, rename_to, loser_of, MergeMeta, Side, side_ours, side_theirs,
  add_add, stage_member, short_of_full,
}

-- A result with its sides called by each other's names.
abbrev pub other_side : Side → Side
other_side side_ours = side_theirs
other_side side_theirs = side_ours

abbrev pub relabel : Result → Result
relabel (rename d) = rename (record d { loser = other_side d.loser })
relabel r = r

rename_to-not :
    (b : Bool) (full : Bytes) (o : Option Bytes)
    → rename_to (loser_of (not b)) full o ≡ relabel (rename_to (loser_of b) full o)
rename_to-not b full none = refl
rename_to-not true full (some s) = refl
rename_to-not false full (some s) = refl

module _ (parse_time : Bytes → Option ℕ) (sum256 : Bytes → Bytes) where
  -- Which file is renamed does not depend on which side is called ours, for two files that differ in
  -- the created instant or in the digest.
  pub add_add_swap :
      (ours theirs : Model) (ours_raw theirs_raw : Bytes) (meta : MergeMeta)
      → ¬ SameKeys parse_time sum256 (stage_member ours ours_raw) (stage_member theirs theirs_raw)
      → add_add parse_time sum256 theirs ours theirs_raw ours_raw meta
        ≡ relabel (add_add parse_time sum256 ours theirs ours_raw theirs_raw meta)
  unfolding add_add
  add_add_swap ours theirs ours_raw theirs_raw meta ne =
      let decides =
        keep_before-decides parse_time sum256 (stage_member ours ours_raw)
          (stage_member theirs theirs_raw) ne in
      elim (Bool-cases (bytes_eq ours.id theirs.id)) [
        | inr e ↦
            let e' : bytes_eq theirs.id ours.id ≡ false =
              ground (arith, bytes_eq_iff theirs.id ours.id, bytes_eq_iff ours.id theirs.id) in
            let none_shared : (bytes_eq theirs.id []
                  || bytes_eq ours.id []
                  || not (bytes_eq theirs.id ours.id))
                ≡ true =
              ground arith in
            let none_shared' : (bytes_eq ours.id []
                  || bytes_eq theirs.id []
                  || not (bytes_eq ours.id theirs.id))
                ≡ true =
              ground arith in
            rw (none_shared, none_shared') refl
        | inl e ↦
            let same : ours.id ≡ theirs.id = (bytes_eq_iff ours.id theirs.id).0 e in
            let back : keep_before parse_time sum256 (stage_member theirs theirs_raw)
                  (stage_member ours ours_raw)
                ≡ not (
                    keep_before parse_time sum256 (stage_member ours ours_raw)
                      (stage_member theirs theirs_raw)) =
              ground arith in
            elim (Bool-cases (bytes_eq theirs.id [])) [
              | inl f ↦ rw (same, f) refl
              | inr f ↦
                  rw (same, f, bytes_eq_refl theirs.id)
                    (elim (Bool-cases (is_full_ticket_id theirs.id)) [
                      | inr g ↦ rw g refl
                      | inl g ↦ rw (g, back) (rename_to-not _ theirs.id _)
                    ])
            ]
      ]

  -- A rename keeps the shared id for one file and gives the other a legal short-id that extends it and
  -- is not occupied.
  pub add_add-rename :
      (ours theirs : Model) (ours_raw theirs_raw : Bytes) (meta : MergeMeta) {d : RenameDirective}
      → add_add parse_time sum256 ours theirs ours_raw theirs_raw meta ≡ rename d
      → (d.collided_id ≡ ours.id)
        × (d.collided_id ≡ theirs.id)
        × (is_full_ticket_id d.collided_id ≡ true)
        × (short_in_family d.new_short_id (short_of_full d.collided_id) ≡ true)
        × (length (short_of_full d.collided_id) < length d.new_short_id)
        × (contains meta.occupied d.new_short_id ≡ false)
  unfolding add_add
  add_add-rename ours theirs ours_raw theirs_raw meta {d} h =
      elim (Bool-cases
        (bytes_eq ours.id [] || bytes_eq theirs.id [] || not (bytes_eq ours.id theirs.id))) [
          | inl e ↦ absurd (let k = rw e at h in cc)
          | inr e ↦ elim (Bool-cases (is_full_ticket_id ours.id)) [
            | inr f ↦ absurd (let k = rw (e, f) at h in cc)
            | inl f ↦ elim (Option-cases (extend (short_of_full ours.id) meta.occupied)) [
              | inl x ↦ absurd (let k = rw (e, f, x) at h in cc)
              | inr (s, x) ↦
                  let k = rw (e, f, x) at h in
                  let told : record {
                    loser = loser_of (
                        keep_before parse_time sum256 (stage_member ours ours_raw)
                          (stage_member theirs theirs_raw));
                    collided_id = ours.id;
                    new_short_id = s;
                  }
                      ≡ d =
                    cc in
                  let shared : ours.id ≡ theirs.id =
                    ground (arith, bytes_eq_iff ours.id theirs.id) in
                  let (legal, family, longer, free) =
                    extend-legal (short_of_full ours.id) meta.occupied x in
                  rw (← told) (refl, shared, f, family, longer, free)
            ]
          ]
        ]
