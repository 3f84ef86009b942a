-- ===== src/Store/Documents/Tests.antt =====
-- A store with two local reviews of two humans.
use revu.Prelude.{ℕ, ◌+◌, ◌≡◌, ◌≢◌, none, some, [], ◌∷◌, length, Text, codes}
use revu.Prelude.Results.{ok}
use revu.Api.{ReviewDraft, ReviewEvent}
use revu.Store.Reviews.{decimal, NewLocalReview, new_row, get_local_review}
use revu.Store.Snapshots.{Snapshot, envelope_row, get_local_snapshot}
use revu.Store.Documents.{
  DocumentRow, ReviewThread, Store, get_local_draft, get_local_viewed, list_local_threads,
  list_local_submitted_reviews, delete_local_review,
}
use revu.Store.Documents.Deletion.{delete_local_review_lem}

abbrev first : NewLocalReview
first = record {
  repo = codes "r";
  base_ref = codes "refs/heads/main";
  head_ref = codes "refs/heads/f";
  title = codes "f";
}

abbrev second : NewLocalReview
second = record first { head_ref = codes "refs/heads/g" }

abbrev snapshot_of : ℕ → Snapshot
snapshot_of id = record {
  pr_number = id;
  synced_at = [];
  partial = none;
  sync_stats = [];
  immutable = record { compare_key = codes "k"; blob_index = some []; rest = [] };
  mutable = [];
}

abbrev draft_of : Text → ℕ → ReviewDraft
draft_of human id = record {
  human_id = human;
  pr_number = id;
  head_sha = codes "h";
  compare_key = codes "k";
  body = [];
  event = ReviewEvent.comment;
  comments = [];
  created_at = [];
  updated_at = [];
}

abbrev draft_row : Text → ℕ → DocumentRow (Text × ℕ) ReviewDraft
draft_row human id = record { key = (human, id); document = some (draft_of human id) }

abbrev thread_row : ℕ → Text → DocumentRow (ℕ × Text) ReviewThread
thread_row id thread = record {
  key = (id, thread);
  document = some record { id = thread; rest = [] };
}

abbrev two_reviews : Store
two_reviews = record {
  cache = record {
    immutables = [];
    snapshots = [];
    local_snapshots =
        envelope_row (snapshot_of 1000000000) ∷ envelope_row (snapshot_of 1000000001) ∷ [];
    blobs = [];
  };
  reviews = record {
    rows = new_row 1000000000 first [] ∷ new_row 1000000001 second [] ∷ [];
    review_mark = decimal 1000000001;
    entity_mark = decimal 8999999999999;
  };
  drafts = draft_row (codes "a") 7 ∷ [];
  viewed = [];
  local_drafts = draft_row (codes "a") 1000000000 ∷ draft_row (codes "b") 1000000001 ∷ [];
  local_viewed = [];
  local_threads = thread_row 1000000001 (codes "t") ∷ thread_row 1000000000 (codes "u") ∷ [];
  local_submitted = [];
}

abbrev left : Store
left = (delete_local_review two_reviews 1000000000).1

delete_local_review_lem_example :
    ((human : Text)
      → (get_local_review left.reviews 1000000000 ≡ none)
        × (get_local_snapshot left.cache 1000000000 ≡ ok none)
        × (list_local_threads left 1000000000 ≡ ok [])
        × (list_local_submitted_reviews left 1000000000 ≡ ok [])
        × (get_local_draft left human 1000000000 ≡ ok none)
        × (get_local_viewed left human 1000000000 ≡ ok (codes "{}")))
    × ((human : Text) (j : ℕ)
        → j ≢ 1000000000
        → (get_local_review left.reviews j ≡ get_local_review two_reviews.reviews j)
          × (get_local_snapshot left.cache j ≡ get_local_snapshot two_reviews.cache j)
          × (list_local_threads left j ≡ list_local_threads two_reviews j)
          × (list_local_submitted_reviews left j ≡ list_local_submitted_reviews two_reviews j)
          × (get_local_draft left human j ≡ get_local_draft two_reviews human j)
          × (get_local_viewed left human j ≡ get_local_viewed two_reviews human j))
    × ((left.cache.snapshots ≡ two_reviews.cache.snapshots)
        × (left.cache.immutables ≡ two_reviews.cache.immutables)
        × (left.cache.blobs ≡ two_reviews.cache.blobs)
        × (left.drafts ≡ two_reviews.drafts)
        × (left.viewed ≡ two_reviews.viewed)
        × (left.reviews.review_mark ≡ two_reviews.reviews.review_mark)
        × (left.reviews.entity_mark ≡ two_reviews.reviews.entity_mark))
    × (length two_reviews.reviews.rows
        ≡ (delete_local_review two_reviews 1000000000).0.reviews_deleted + length left.reviews.rows)
    × (length two_reviews.cache.local_snapshots
        ≡ (delete_local_review two_reviews 1000000000).0.snapshots_deleted
          + length left.cache.local_snapshots)
    × (length two_reviews.local_threads
        ≡ (delete_local_review two_reviews 1000000000).0.threads_deleted
          + length left.local_threads)
    × (length two_reviews.local_submitted
        ≡ (delete_local_review two_reviews 1000000000).0.submitted_reviews_deleted
          + length left.local_submitted)
    × (length two_reviews.local_drafts
        ≡ (delete_local_review two_reviews 1000000000).0.drafts_deleted + length left.local_drafts)
    × (length two_reviews.local_viewed
        ≡ (delete_local_review two_reviews 1000000000).0.viewed_deleted + length left.local_viewed)
delete_local_review_lem_example = delete_local_review_lem two_reviews 1000000000
