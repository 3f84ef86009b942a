-- ===== src/Store/Reviews.antt =====
-- The local reviews of the store: the row of each branch pair, the marks from which ids are handed
-- out, and the archive column (store.ts; the bands of ids are those of
-- packages/shared/src/api/ids.ts). A statement that SQLite refuses for a reason outside the rows (a
-- full disk, a lock) is not modelled. A number is a JavaScript number that is an integer and is
-- not negative.
pub mod Minted
pub mod Issued
pub mod Registry
mod Tests
use revu.Prelude.{
  ℕ, suc, ◌+◌, Bool, true, false, ◌&&◌, ◌||◌, Option, none, some, List, [], ◌∷◌, ◌++◌,
  if◌then◌else◌, any, map, Text, codes, ◌==◌, leb, ltb,
}
use revu.Prelude.Results.{Result, ok, err, ◌>>=◌}
use revu.Retention.{Table, meta_table, local_reviews_table, keyed, Unreadable}
use revu.Retention.Refs.{local_review_id_base, is_local_review_id}
use revu.Store.Tables.{Keys, number_keys, text_keys, pair_keys, select, delete_at}

abbrev pub local_entity_id_base : ℕ
local_entity_id_base = 9000000000000

abbrev pub local_review_generation : ℕ
local_review_generation = 0

pub record LocalReviewRow : Type 0 where
  pub id : ℕ
  pub repo : Text
  pub base_ref : Text
  pub head_ref : Text
  pub generation : ℕ
  pub title : Text
  pub base_sha : Option Text
  pub merge_base_sha : Option Text
  pub head_sha : Option Text
  pub dirty : ℕ
  pub archived_pr : Option ℕ
  pub created_at : Text
  pub updated_at : Text
  pub last_synced_at : Option Text

pub record LocalReviewSummary : Type 0 where
  pub id : ℕ
  pub repo : Text
  pub base_ref : Text
  pub head_ref : Text
  pub title : Text
  pub base_sha : Option Text
  pub merge_base_sha : Option Text
  pub head_sha : Option Text
  pub dirty : Bool
  pub archived_pr : Option ℕ
  pub created_at : Text
  pub updated_at : Text
  pub last_synced_at : Option Text

pub record NewLocalReview : Type 0 where
  pub repo : Text
  pub base_ref : Text
  pub head_ref : Text
  pub title : Text

pub record LocalReviewSyncState : Type 0 where
  pub base_sha : Option Text
  pub merge_base_sha : Option Text
  pub head_sha : Option Text
  pub dirty : Bool
  pub last_synced_at : Option Text

abbrev pub to_local_review_summary : LocalReviewRow → LocalReviewSummary
to_local_review_summary row = record {
  id = row.id;
  repo = row.repo;
  base_ref = row.base_ref;
  head_ref = row.head_ref;
  title = row.title;
  base_sha = row.base_sha;
  merge_base_sha = row.merge_base_sha;
  head_sha = row.head_sha;
  dirty = if row.dirty == 0 then false else true;
  archived_pr = row.archived_pr;
  created_at = row.created_at;
  updated_at = row.updated_at;
  last_synced_at = row.last_synced_at;
}

-- The value of a mark in `meta`: no row, a text that is not all digits, or a decimal number.
pub data Mark : Type 0 where
  missing garbled : Mark
  decimal : ℕ → Mark

pub record Reviews : Type 0 where
  pub rows : List LocalReviewRow
  pub review_mark : Mark
  pub entity_mark : Mark

-- What a body throws, and what `write` lets out.
pub data Thrown : Type 0 where
  unreadable_row : Unreadable → Thrown
  plain_error : Thrown

pub data StoreError : Type 0 where
  store_unreadable : Unreadable → StoreError
  store_write : Table → StoreError
  range_error : StoreError

abbrev pub write {ℓ} : {T : Type ℓ} → Table → Result Thrown T → Result StoreError T
write table (ok out) = ok out
write table (err (unreadable_row u)) = err (store_unreadable u)
write table (err plain_error) = err (store_write table)

-- The unique key of a row: its repository, its two branches and its generation.
abbrev pub Branches : Type 0
Branches = (Text × Text) × (Text × ℕ)

abbrev pub branch_keys : Keys Branches
branch_keys = pair_keys (pair_keys text_keys text_keys) (pair_keys text_keys number_keys)

abbrev pub branches_of : LocalReviewRow → Branches
branches_of row = ((row.repo, row.base_ref), (row.head_ref, row.generation))

abbrev pub asked : NewLocalReview → Branches
asked input = ((input.repo, input.base_ref), (input.head_ref, local_review_generation))

abbrev pub select_local_review : List LocalReviewRow → NewLocalReview → Option LocalReviewRow
select_local_review rows input = select branch_keys branches_of (asked input) rows

abbrev pub review_id : LocalReviewRow → ℕ
review_id row = row.id

-- The number handed out and the mark that is left.
abbrev pub bump_id_high_water : Mark → Text → ℕ → Result Thrown (ℕ × Mark)
bump_id_high_water missing key base = err plain_error
bump_id_high_water garbled key base =
    err (unreadable_row record { table = meta_table; row_key = keyed key })
bump_id_high_water (decimal n) key base =
    if leb base (n + 1)
    then ok (n + 1, decimal (n + 1))
    else err (unreadable_row record { table = meta_table; row_key = keyed key })

abbrev pub local_review_id_meta_key : Text
local_review_id_meta_key = codes "local_review_id_high_water"

abbrev pub local_entity_id_meta_key : Text
local_entity_id_meta_key = codes "local_entity_id_high_water"

abbrev pub new_row : ℕ → NewLocalReview → Text → LocalReviewRow
new_row id input at = record {
  id = id;
  repo = input.repo;
  base_ref = input.base_ref;
  head_ref = input.head_ref;
  generation = local_review_generation;
  title = input.title;
  base_sha = none;
  merge_base_sha = none;
  head_sha = none;
  dirty = 0;
  archived_pr = none;
  created_at = at;
  updated_at = at;
  last_synced_at = none;
}

-- INSERT ... ON CONFLICT(repo, base_ref, head_ref, generation) DO NOTHING: a row of the same
-- branches yields, and one of the same id aborts.
abbrev pub insert_review :
    LocalReviewRow → List LocalReviewRow → Result Thrown (List LocalReviewRow)
insert_review row rows = elim (select branch_keys branches_of (branches_of row) rows) [
  | some there ↦ ok rows
  | none ↦ elim (select number_keys review_id row.id rows) [
    | some there ↦ err plain_error
    | none ↦ ok (rows ++ (row ∷ []))
  ]
]

-- The transaction of createLocalReview.
abbrev pub mint : Text → Reviews → NewLocalReview → Result Thrown Reviews
mint at st input = elim (select_local_review st.rows input) [
  | some there ↦ ok st
  | none ↦
      bump_id_high_water st.review_mark local_review_id_meta_key local_review_id_base
      >>= λ (id, mark). insert_review (new_row id input at) st.rows >>= λ rows.
          ok (record st { rows = rows; review_mark = mark })
]

abbrev pub recorded : List LocalReviewRow → NewLocalReview → Result Thrown LocalReviewSummary
recorded rows input = elim (select_local_review rows input) [
  | none ↦ err plain_error
  | some row ↦ ok (to_local_review_summary row)
]

-- `at` is the time of the call, as ISO text.
pub create_local_review :
    Text → Reviews → NewLocalReview → Result StoreError LocalReviewSummary × Reviews
create_local_review at st input = elim (mint at st input) [
  | err thrown ↦ (write local_reviews_table (err thrown), st)
  | ok st' ↦ (write local_reviews_table (recorded st'.rows input), st')
]

unfoldable pub get_local_review : Reviews → ℕ → Option LocalReviewSummary
get_local_review st id = elim (select number_keys review_id id st.rows) [
  | none ↦ none
  | some row ↦ some (to_local_review_summary row)
]

abbrev pub patched : Text → LocalReviewSyncState → LocalReviewRow → LocalReviewRow
patched at state row = record row {
  base_sha = state.base_sha;
  merge_base_sha = state.merge_base_sha;
  head_sha = state.head_sha;
  dirty = if state.dirty then 1 else 0;
  last_synced_at = state.last_synced_at;
  updated_at = at;
}

-- UPDATE ... WHERE id = ?
abbrev pub update_at :
    ℕ → (LocalReviewRow → LocalReviewRow) → List LocalReviewRow → List LocalReviewRow
update_at id change = map (λ row. if row.id == id then change row else row)

pub patch_local_review_sync : Text → Reviews → ℕ → LocalReviewSyncState → Reviews
patch_local_review_sync at st id state = record st {
  rows = update_at id (patched at state) st.rows;
}

pub next_local_entity_id : Reviews → Result StoreError ℕ × Reviews
next_local_entity_id st =
    elim (bump_id_high_water st.entity_mark local_entity_id_meta_key local_entity_id_base) [
      | err thrown ↦ (write meta_table (err thrown), st)
      | ok out ↦ (ok out.0, record st { entity_mark = out.1 })
    ]

-- The column is set only where it is empty.
abbrev pub archived : ℕ → LocalReviewRow → LocalReviewRow
archived pr row = elim row.archived_pr [
  | none ↦ record row { archived_pr = some pr }
  | some first ↦ row
]

pub mark_local_review_archived : Reviews → ℕ → ℕ → Result {0, 0} StoreError Unit × Reviews
mark_local_review_archived st id pr =
    if pr == 0 || is_local_review_id pr
    then (err range_error, st)
    else (ok tt, record st { rows = update_at id (archived pr) st.rows })

-- The statement on `local_reviews` of deleteLocalReview.
unfoldable pub delete_review_row : Reviews → ℕ → Reviews
delete_review_row st id = record st { rows = delete_at number_keys review_id id st.rows }

-- The tables when they are created, with the marks seeded under the bands.
abbrev pub seeded : Reviews
seeded = record { rows = []; review_mark = decimal 999999999; entity_mark = decimal 8999999999999 }
