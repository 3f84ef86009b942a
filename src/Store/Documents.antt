-- ===== src/Store/Documents.antt =====
-- The documents of the store: drafts, viewed files and preferences of humans, and the threads and
-- submitted reviews of local reviews; with the whole store, and the deletion of a local review
-- from its six tables (store.ts). The preferences are those of the store when it is read; how a
-- patch is merged is not modelled.
pub mod Deletion
pub mod RoundTrip
mod Tests
use revu.Prelude.{
  ℕ, Bool, ◌&&◌, Option, none, some, List, [], ◌∷◌, filter, length, Text, codes, ◌==◌,
}
use revu.Prelude.Results.{Result, ok, err, ◌>>=◌}
use revu.Retention.{
  Table, drafts_table, viewed_table, local_drafts_table, local_viewed_table, local_threads_table,
  local_submitted_table, RowKey, numbered, keyed, of_human, in_review, Unreadable, Json, Database,
}
use revu.Api.{ReviewDraft}
use revu.Store.Tables.{Keys, number_keys, text_keys, pair_keys, at_key, select, upsert, delete_at}
use revu.Store.Snapshots.{envelope_key, delete_local_snapshot}
use revu.Store.Reviews.{Reviews, review_id, delete_review_row}

-- A row of a table of documents; a document that does not parse is `none`.
pub record DocumentRow (K D : Type 0) : Type 0 where
  pub key : K
  pub document : Option D

pub record ReviewThread : Type 0 where
  pub id : Text
  pub rest : Json

pub record ReviewSummary : Type 0 where
  pub id : ℕ
  pub rest : Json

abbrev pub document_key : {K D : Type 0} → DocumentRow K D → K
document_key r = r.key

abbrev pub human_keys : Keys (Text × ℕ)
human_keys = pair_keys text_keys number_keys

abbrev pub thread_keys : Keys (ℕ × Text)
thread_keys = pair_keys number_keys text_keys

abbrev pub submitted_keys : Keys (ℕ × ℕ)
submitted_keys = pair_keys number_keys number_keys

pub record Store : Type 0 where
  pub cache : Database
  pub reviews : Reviews
  -- The number of a draft under a local review is the review's id.
  pub drafts : List (DocumentRow (Text × ℕ) ReviewDraft)
  pub viewed : List (DocumentRow (Text × ℕ) Json)
  pub local_drafts : List (DocumentRow (Text × ℕ) ReviewDraft)
  pub local_viewed : List (DocumentRow (Text × ℕ) Json)
  pub local_threads : List (DocumentRow (ℕ × Text) ReviewThread)
  pub local_submitted : List (DocumentRow (ℕ × ℕ) ReviewSummary)

abbrev pub parse_row : {K D : Type 0} → Table → (K → RowKey) → DocumentRow K D → Result Unreadable D
parse_row table name row = elim row.document [
  | none ↦ err record { table = table; row_key = name row.key }
  | some document ↦ ok document
]

-- SELECT data ... WHERE key = ?, and the parse of the row that is found.
pub get_document :
    {K D : Type 0}
    → Keys K
    → Table
    → (K → RowKey)
    → K
    → List (DocumentRow K D)
    → Result Unreadable (Option D)
get_document keys table name key rows = elim (select keys document_key key rows) [
  | none ↦ ok none
  | some row ↦ parse_row table name row >>= λ document. ok (some document)
]

abbrev pub put_document :
    {K D : Type 0} → Keys K → K → D → List (DocumentRow K D) → List (DocumentRow K D)
put_document keys key document =
    upsert keys document_key record { key = key; document = some document }

abbrev pub human_row : Text × ℕ → RowKey
human_row key = of_human key.0 key.1

abbrev pub get_draft : Store → Text → ℕ → Result Unreadable (Option ReviewDraft)
get_draft st human_id pr_number =
    get_document human_keys drafts_table human_row (human_id, pr_number) st.drafts

abbrev pub put_draft : Store → ReviewDraft → Store
put_draft st draft = record st {
  drafts = put_document human_keys (draft.human_id, draft.pr_number) draft st.drafts;
}

abbrev pub delete_draft : Store → Text → ℕ → Store
delete_draft st human_id pr_number = record st {
  drafts = delete_at human_keys document_key (human_id, pr_number) st.drafts;
}

-- No row is the empty state.
abbrev pub or_empty : Option Json → Json
or_empty none = codes "{}"
or_empty (some state) = state

abbrev pub get_viewed : Store → Text → ℕ → Result Unreadable Json
get_viewed st human_id pr_number =
    get_document human_keys viewed_table human_row (human_id, pr_number) st.viewed >>= λ state.
    ok (or_empty state)

abbrev pub set_viewed : Store → Text → ℕ → Json → Store
set_viewed st human_id pr_number state = record st {
  viewed = put_document human_keys (human_id, pr_number) state st.viewed;
}

abbrev pub get_local_draft : Store → Text → ℕ → Result Unreadable (Option ReviewDraft)
get_local_draft st human_id local_id =
    get_document human_keys local_drafts_table human_row (human_id, local_id) st.local_drafts

abbrev pub put_local_draft : Store → ReviewDraft → Store
put_local_draft st draft = record st {
  local_drafts = put_document human_keys (draft.human_id, draft.pr_number) draft st.local_drafts;
}

abbrev pub delete_local_draft : Store → Text → ℕ → Store
delete_local_draft st human_id local_id = record st {
  local_drafts = delete_at human_keys document_key (human_id, local_id) st.local_drafts;
}

abbrev pub get_local_viewed : Store → Text → ℕ → Result Unreadable Json
get_local_viewed st human_id local_id =
    get_document human_keys local_viewed_table human_row (human_id, local_id) st.local_viewed
    >>= λ state. ok (or_empty state)

abbrev pub set_local_viewed : Store → Text → ℕ → Json → Store
set_local_viewed st human_id local_id state = record st {
  local_viewed = put_document human_keys (human_id, local_id) state st.local_viewed;
}

-- rows.map(parseRow), which throws for the first row that does not parse.
pub parse_rows :
    {K D : Type 0} → Table → (K → RowKey) → List (DocumentRow K D) → Result Unreadable (List D)
parse_rows table name [] = ok []
parse_rows table name (r ∷ rs) = parse_row table name r >>= λ document.
    parse_rows table name rs >>= λ documents. ok (document ∷ documents)

-- The rows of a local review, in the order in which they were inserted.
abbrev pub in_local_review :
    {D : Type 0} → {K : Type 0} → ℕ → List (DocumentRow (ℕ × K) D) → List (DocumentRow (ℕ × K) D)
in_local_review local_id = filter (λ r. local_id == r.key.0)

abbrev pub list_local_threads : Store → ℕ → Result Unreadable (List ReviewThread)
list_local_threads st local_id =
    parse_rows local_threads_table (λ key. in_review key.0 (keyed key.1))
      (in_local_review local_id st.local_threads)

abbrev pub get_local_thread : Store → ℕ → Text → Result Unreadable (Option ReviewThread)
get_local_thread st local_id thread_id =
    get_document thread_keys local_threads_table (λ key. in_review key.0 (keyed key.1))
      (local_id, thread_id) st.local_threads

abbrev pub put_local_thread : Store → ℕ → ReviewThread → Store
put_local_thread st local_id thread = record st {
  local_threads = put_document thread_keys (local_id, thread.id) thread st.local_threads;
}

abbrev pub list_local_submitted_reviews : Store → ℕ → Result Unreadable (List ReviewSummary)
list_local_submitted_reviews st local_id =
    parse_rows local_submitted_table (λ key. in_review key.0 (numbered key.1))
      (in_local_review local_id st.local_submitted)

abbrev pub put_local_submitted_review : Store → ℕ → ReviewSummary → Store
put_local_submitted_review st local_id review = record st {
  local_submitted = put_document submitted_keys (local_id, review.id) review st.local_submitted;
}

pub record LocalReviewDeletion : Type 0 where
  pub reviews_deleted : ℕ
  pub snapshots_deleted : ℕ
  pub threads_deleted : ℕ
  pub submitted_reviews_deleted : ℕ
  pub drafts_deleted : ℕ
  pub viewed_deleted : ℕ

-- DELETE ... WHERE local_id = ?, and the `changes` of such a statement.
module _ {R : Type 0} (id_of : R → ℕ) (local_id : ℕ) where
  abbrev pub changes : List R → ℕ
  changes rows = length (filter (at_key number_keys id_of local_id) rows)

  abbrev pub without : List R → List R
  without = delete_at number_keys id_of local_id

abbrev pub of_first : {K D : Type 0} → DocumentRow (ℕ × K) D → ℕ
of_first r = r.key.0

abbrev pub of_second : {K D : Type 0} → DocumentRow (K × ℕ) D → ℕ
of_second r = r.key.1

pub delete_local_review : Store → ℕ → LocalReviewDeletion × Store
unfolding delete_local_snapshot delete_review_row
delete_local_review st local_id = (
  record {
    reviews_deleted = changes review_id local_id st.reviews.rows;
    snapshots_deleted = changes envelope_key local_id st.cache.local_snapshots;
    threads_deleted = changes of_first local_id st.local_threads;
    submitted_reviews_deleted = changes of_first local_id st.local_submitted;
    drafts_deleted = changes of_second local_id st.local_drafts;
    viewed_deleted = changes of_second local_id st.local_viewed;
  },
  record st {
    reviews = delete_review_row st.reviews local_id;
    cache = delete_local_snapshot st.cache local_id;
    local_threads = without of_first local_id st.local_threads;
    local_submitted = without of_first local_id st.local_submitted;
    local_drafts = without of_second local_id st.local_drafts;
    local_viewed = without of_second local_id st.local_viewed;
  },
)
