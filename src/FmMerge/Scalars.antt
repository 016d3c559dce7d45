-- ===== src/FmMerge/Scalars.antt =====
-- internal/fmmerge/fmmerge.go: the merge of scalars with its sides swapped.
use tk.Prelude.{
  Bool, not, Bytes, ◌≡◌, ◌≢◌, arith, bytes_eq, bytes_eq_iff, bytes_lt_asymm, bytes_lt_total,
}
use tk.FmMerge.{merge_scalar, merge_immutable, pick_ours, MergeMeta}

abbrev pub swap_dates : MergeMeta → MergeMeta
swap_dates m = record m { ours_date = m.theirs_date; theirs_date = m.ours_date }

pub bytes_eq_comm : (a b : Bytes) → bytes_eq a b ≡ bytes_eq b a
bytes_eq_comm a b = ground (arith, bytes_eq_iff a b, bytes_eq_iff b a)

-- Swapping the sides with their dates gives the other answer, unless the digests are equal.
pub pick_ours_swap :
    (sum256 : Bytes → Bytes) (meta : MergeMeta) (ours_raw theirs_raw : Bytes)
    → sum256 ours_raw ≢ sum256 theirs_raw
    → pick_ours sum256 (swap_dates meta) theirs_raw ours_raw
      ≡ not (pick_ours sum256 meta ours_raw theirs_raw)
unfolding pick_ours
pick_ours_swap sum256 meta a b ne =
    let asymm = bytes_lt_asymm (sum256 a) (sum256 b) in
    let total = bytes_lt_total (sum256 a) (sum256 b) in ground (arith, asymm, total, ne)

-- Merging with the sides swapped.
pub merge_scalar_swap :
    (w : Bool) (base ours theirs : Bytes)
    → merge_scalar (not w) base theirs ours ≡ merge_scalar w base ours theirs
unfolding merge_scalar
merge_scalar_swap w base ours theirs = ground (
  arith,
  bytes_eq_iff ours theirs,
  bytes_eq_comm ours theirs,
  bytes_eq_iff ours base,
  bytes_eq_iff theirs base,
)

-- The immutable merge with the sides swapped.
pub merge_immutable_swap :
    (base ours theirs : Bytes) → merge_immutable base theirs ours ≡ merge_immutable base ours theirs
unfolding merge_immutable
merge_immutable_swap base ours theirs =
    ground (arith, bytes_eq_iff ours theirs, bytes_eq_comm ours theirs)
