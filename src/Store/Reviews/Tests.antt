-- ===== src/Store/Reviews/Tests.antt =====
-- A review is made, deleted and made again.
use revu.Prelude.{ℕ, ◌≡◌, ◌≤◌, ◌<◌, none, ◌++◌, All, Text, codes}
use revu.Prelude.Results.{ok}
use revu.Store.Tables.{number_keys}
use revu.Store.Tables.Distinct.{IsDistinct}
use revu.Retention.Refs.{local_review_id_base}
use revu.Store.Reviews.{
  LocalReviewSummary, LocalReviewSyncState, NewLocalReview, Reviews, branch_keys, branches_of,
  asked, select_local_review, review_id, create_local_review, patch_local_review_sync,
  next_local_entity_id, mark_local_review_archived, delete_review_row, seeded,
}
use revu.Store.Reviews.Issued.{ReviewReach, here, then_step, created, deleted, ids_are_new}
use revu.Store.Reviews.Registry.{
  Registry, nothing_assigned, register, unregister, Implements, reviews_implement_registry,
  seeded-Implements,
}

abbrev feature : NewLocalReview
feature = record {
  repo = codes "r";
  base_ref = codes "refs/heads/main";
  head_ref = codes "refs/heads/f";
  title = codes "f";
}

abbrev noon : Text
noon = codes "2024-01-01T12:00:00.000Z"

abbrev one_review : Reviews
one_review = (create_local_review noon seeded feature).1

abbrev none_left : Reviews
none_left = delete_review_row one_review 1000000000

one_review-ReviewReach : ReviewReach seeded one_review
one_review-ReviewReach =
    then_step seeded seeded one_review (here seeded) (created noon seeded feature)

none_left-ReviewReach : ReviewReach one_review none_left
none_left-ReviewReach =
    then_step one_review one_review none_left (here one_review) (deleted one_review 1000000000)

ids_are_new_example :
    All (λ r. local_review_id_base ≤ r.id) none_left.rows
    × IsDistinct number_keys review_id none_left.rows
    × IsDistinct branch_keys branches_of none_left.rows
    × (select_local_review none_left.rows feature ≡ none
        → (summary : LocalReviewSummary) × ((create_local_review noon none_left feature).0
            ≡ ok summary)
          × (local_review_id_base ≤ summary.id)
          × All (λ r. r.id < summary.id) (one_review.rows ++ none_left.rows))
ids_are_new_example =
    ids_are_new one_review none_left noon feature one_review-ReviewReach none_left-ReviewReach

abbrev feature_assigned : Registry
feature_assigned = (register nothing_assigned (asked feature)).1

one_review-Implements : Implements one_review feature_assigned
one_review-Implements =
    ((reviews_implement_registry seeded nothing_assigned seeded-Implements).0 noon feature).1

reviews_implement_registry_example :
    ((at : Text) (input : NewLocalReview)
      → ((summary : LocalReviewSummary) × ((create_local_review at one_review input).0 ≡ ok summary)
          × (summary.id ≡ (register feature_assigned (asked input)).0))
        × Implements
            (create_local_review at one_review input).1
            (register feature_assigned (asked input)).1)
    × ((id : ℕ) → Implements (delete_review_row one_review id) (unregister id feature_assigned))
    × ((at : Text) (id : ℕ) (state : LocalReviewSyncState)
        → Implements (patch_local_review_sync at one_review id state) feature_assigned)
    × ((id pr : ℕ) → Implements (mark_local_review_archived one_review id pr).1 feature_assigned)
    × Implements (next_local_entity_id one_review).1 feature_assigned
reviews_implement_registry_example =
    reviews_implement_registry one_review feature_assigned one_review-Implements
