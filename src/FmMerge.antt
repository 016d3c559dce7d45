-- ===== src/FmMerge.antt =====
-- internal/fmmerge/fmmerge.go: the three-way merge of the frontmatter of a ticket file.
-- SHA-256, the RFC3339 parser and the YAML decoder are parameters; author dates are their instants.
mod Values
mod Statuses
mod Lists
mod Scalars
mod Disputes
mod Outcomes
mod AddAdd
mod Examples
unfoldable pub use Values.*
unfoldable pub use Statuses.*
use tk.Prelude.{
  ℕ, Bool, true, false, ◌&&◌, ◌||◌, not, Option, none, some, List, [], ◌∷◌, ◌++◌, map, Bytes, codes,
  bytes_eq, bytes_lt, contains, ltb, if◌then◌else◌,
}
use tk.Frontmatter.{
  Value, scalar, strings, values, text, Field, Model, no_model, item, sprint, sprint_scalar, split,
  decode, key_id, key_created, key_status, key_status_conflict,
}
use tk.Schema.{
  FieldType, field_strings, FieldDecl, Schema, status_known, status_terminal, field, by_key,
}
use tk.Collision.{Member, keep_before}
use tk.Id.{is_full_ticket_id, cut_hyphen, extend}

-- An absent stage and a present empty one differ.
pub record Stage : Type 0 where
  pub present : Bool
  pub bytes : Bytes

pub data Side : Type 0 where
  side_ours side_theirs : Side

-- The dates are instants; `occupied` is the set of the taken short-ids.
pub record MergeMeta : Type 0 where
  pub ours_date : ℕ
  pub theirs_date : ℕ
  pub occupied : List Bytes

pub record RenameDirective : Type 0 where
  pub loser : Side
  pub collided_id : Bytes
  pub new_short_id : Bytes

pub record DeleteEditSignal : Type 0 where
  pub deleted : Side
  pub surviving_status : Bytes

pub data Warning : Type 0 where
  rewrote_id rewrote_created : Warning

-- `Result` by its outcome; `merge_error` is a MergeError with its key, empty where it has none.
pub data Result : Type 0 where
  merged : Model → List Warning → Result
  status_conflict : Model → List Bytes → List Warning → Result
  rename : RenameDirective → Result
  delete_edit_of : DeleteEditSignal → Result
  merge_error : Bytes → Result

-- `pickOurs`
unfoldable pub pick_ours : (Bytes → Bytes) → MergeMeta → Bytes → Bytes → Bool
pick_ours sum256 meta ours_raw theirs_raw =
    if ltb meta.theirs_date meta.ours_date
    then true
    else if ltb meta.ours_date meta.theirs_date
    then false
    else not (bytes_lt (sum256 ours_raw) (sum256 theirs_raw))

-- `orderedCustomKeys`
unfoldable pub keys_of : List Field → List Bytes
keys_of [] = []
keys_of (f ∷ fs) = f.key ∷ keys_of fs

unfoldable pub ordered_custom_keys : Model → Model → Model → List Bytes
unfolding add_new keys_of
ordered_custom_keys base ours theirs =
    add_new (λ e. true) [] (keys_of base.custom ++ (keys_of ours.custom ++ keys_of theirs.custom))

abbrev pub is_strings_type : FieldType → Bool
is_strings_type field_strings = true
is_strings_type t = false

unfoldable pub is_strings_field : Option FieldDecl → Bool
is_strings_field none = false
is_strings_field (some f) = is_strings_type f.type

abbrev pub list_field : Bytes → List Bytes → List Field
list_field k [] = []
list_field k (s ∷ l) = item k (to_any_list (s ∷ l)) ∷ []

abbrev pub opt_field : Bytes → Option Value → List Field
opt_field k none = []
opt_field k (some v) = item k v ∷ []

-- One round of the loop of `mergeCustom`, over the three `customMap`s.
unfoldable pub merge_key : Schema → Bool → Model → Model → Model → Bytes → List Field
unfolding is_strings_field merge_list to_strings merge_scalar_opt
merge_key schema ours_wins base ours theirs k =
    let b = by_key k base.custom in
    let o = by_key k ours.custom in
    let t = by_key k theirs.custom in
    if is_strings_field (field schema k)
    then list_field k (merge_list (to_strings b) (to_strings o) (to_strings t))
    else opt_field k (merge_scalar_opt ours_wins b o t)

unfoldable pub merge_keys : Schema → Bool → Model → Model → Model → List Bytes → List Field
unfolding merge_key
merge_keys schema ours_wins base ours theirs [] = []
merge_keys schema ours_wins base ours theirs (k ∷ ks) =
    merge_key schema ours_wins base ours theirs k ++ merge_keys schema ours_wins base ours theirs ks

unfoldable pub merge_custom : Schema → Bool → Model → Model → Model → List Field
unfolding merge_keys ordered_custom_keys
merge_custom schema ours_wins base ours theirs =
    merge_keys schema ours_wins base ours theirs (ordered_custom_keys base ours theirs)

abbrev pub warn_if : Bool → Warning → List Warning
warn_if true w = w ∷ []
warn_if false w = []

-- The model that `threeWay` builds.
unfoldable pub merged_model :
    Schema → Bool → Model → Model → Model → Bytes → Bytes → StatusMerge → Model
unfolding merge_list merge_scalar merge_changed merge_custom
merged_model schema ours_wins base ours theirs id created st = record {
  id = id;
  status = st.status;
  changed = merge_changed ours_wins base ours theirs st;
  order = merge_scalar ours_wins base.order ours.order theirs.order;
  depends = merge_list base.depends ours.depends theirs.depends;
  related = merge_list base.related ours.related theirs.related;
  tags = merge_list base.tags ours.tags theirs.tags;
  created = created;
  links = merge_list base.links ours.links theirs.links;
  summary = merge_scalar ours_wins base.summary ours.summary theirs.summary;
  status_conflict = st.conflict;
  custom = merge_custom schema ours_wins base ours theirs;
}

abbrev pub outcome_of : StatusMerge → Model → List Warning → Result
outcome_of st m warnings =
    if st.dispute then status_conflict m st.conflict warnings else merged m warnings

-- The end of `threeWay`, with what the identity and the status came to.
unfoldable pub three_way_rest :
    Schema
    → Bool
    → Model
    → Model
    → Model
    → Option (Bytes × Bool)
    → Option (Bytes × Bool)
    → StatusResult
    → Result
unfolding merged_model
three_way_rest schema ours_wins base ours theirs none created st = merge_error key_id
three_way_rest schema ours_wins base ours theirs (some i) none st = merge_error key_created
three_way_rest schema ours_wins base ours theirs (some i) (some c) (status_error k) = merge_error k
three_way_rest schema ours_wins base ours theirs (some i) (some c) (status_merged st) =
    outcome_of st (merged_model schema ours_wins base ours theirs i.0 c.0 st)
      (warn_if i.1 rewrote_id ++ warn_if c.1 rewrote_created)

unfoldable pub three_way : Schema → Bool → Model → Model → Model → Result
unfolding three_way_rest merge_immutable merge_status
three_way schema ours_wins base ours theirs =
    three_way_rest schema ours_wins base ours theirs (merge_immutable base.id ours.id theirs.id)
      (merge_immutable base.created ours.created theirs.created)
      (merge_status schema ours_wins base ours theirs)

unfoldable pub delete_edit : Side → Model → Result
delete_edit deleted survivor =
    delete_edit_of (record { deleted = deleted; surviving_status = survivor.status })

-- `full[strings.IndexByte(full, '-')+1:]`, the whole id where there is no hyphen.
unfoldable pub short_of_full : Bytes → Bytes
unfolding cut_hyphen
short_of_full full = elim (cut_hyphen full) [ none ↦ full | some (scope, short) ↦ short ]

abbrev pub rename_to : Side → Bytes → Option Bytes → Result
rename_to loser full none = merge_error key_id
rename_to loser full (some new_short) =
    rename (record { loser = loser; collided_id = full; new_short_id = new_short })

abbrev pub loser_of : Bool → Side
loser_of true = side_theirs
loser_of false = side_ours

-- Both stages share one path, which the comparison leaves out.
abbrev pub stage_member : Model → Bytes → Member
stage_member m raw = record { created = m.created; basename = []; raw = raw; path = [] }

module _ (parse_time : Bytes → Option ℕ) (sum256 : Bytes → Bytes) where
  unfoldable pub add_add : Model → Model → Bytes → Bytes → MergeMeta → Result
  unfolding short_of_full
  add_add ours theirs ours_raw theirs_raw meta =
      if bytes_eq ours.id [] || bytes_eq theirs.id [] || not (bytes_eq ours.id theirs.id)
      then merge_error key_id
      else if not (is_full_ticket_id ours.id)
      then merge_error key_id
      else rename_to
          (loser_of (
            keep_before parse_time sum256 (stage_member ours ours_raw)
              (stage_member theirs theirs_raw)))
          ours.id (extend (short_of_full ours.id) meta.occupied)

-- A stage that is read: absent, a model, or the error of `loadStage`.
pub data Loaded : Type 0 where
  absent malformed : Loaded
  loaded : Model → Loaded

module _ (unmarshal : Bytes → Option (List Field)) where
  -- `frontmatter.Parse`; `none` is its error.
  unfoldable pub parse : Bytes → Option Model
  parse interior = elim (unmarshal interior) [ none ↦ none | some items ↦ decode no_model items ]

  unfoldable pub load_stage : Stage → Loaded
  unfolding parse
  load_stage s =
      if not s.present
      then absent
      else if bytes_eq s.bytes []
      then malformed
      else if not (split s.bytes).present
      then malformed
      else elim (parse (split s.bytes).interior) [ none ↦ malformed | some m ↦ loaded m ]

-- The dispatch of `MergeFrontmatter` on the stages that were read.
module _ (parse_time : Bytes → Option ℕ) (sum256 : Bytes → Bytes) where
  unfoldable pub dispatch : Loaded → Loaded → Loaded → Bytes → Bytes → Schema → MergeMeta → Result
  unfolding add_add three_way delete_edit pick_ours
  dispatch malformed o t ours_raw theirs_raw schema meta = merge_error []
  dispatch absent malformed t ours_raw theirs_raw schema meta = merge_error []
  dispatch (loaded b) malformed t ours_raw theirs_raw schema meta = merge_error []
  dispatch absent absent t ours_raw theirs_raw schema meta = merge_error []
  dispatch absent (loaded o) malformed ours_raw theirs_raw schema meta = merge_error []
  dispatch absent (loaded o) absent ours_raw theirs_raw schema meta = merge_error []
  dispatch absent (loaded o) (loaded t) ours_raw theirs_raw schema meta =
      add_add parse_time sum256 o t ours_raw theirs_raw meta
  dispatch (loaded b) absent absent ours_raw theirs_raw schema meta = merge_error []
  dispatch (loaded b) absent malformed ours_raw theirs_raw schema meta = merge_error []
  dispatch (loaded b) absent (loaded t) ours_raw theirs_raw schema meta = delete_edit side_ours t
  dispatch (loaded b) (loaded o) malformed ours_raw theirs_raw schema meta = merge_error []
  dispatch (loaded b) (loaded o) absent ours_raw theirs_raw schema meta = delete_edit side_theirs o
  dispatch (loaded b) (loaded o) (loaded t) ours_raw theirs_raw schema meta =
      three_way schema (pick_ours sum256 meta ours_raw theirs_raw) b o t

  module _ (unmarshal : Bytes → Option (List Field)) where
    -- `MergeFrontmatter`; a nil schema is `none`.
    unfoldable pub merge_frontmatter : Stage → Stage → Stage → Option Schema → MergeMeta → Result
    unfolding dispatch load_stage
    merge_frontmatter base ours theirs none meta = merge_error []
    merge_frontmatter base ours theirs (some schema) meta =
        dispatch (load_stage unmarshal base) (load_stage unmarshal ours)
          (load_stage unmarshal theirs) ours.bytes theirs.bytes schema meta
