-- ===== src/Store/Documents/Deletion.antt =====
-- deleteLocalReview: what is gone, what it counts, and what the other reviews keep.
use revu.Prelude.{
  ℕ, ◌+◌, ◌≡◌, ◌≢◌, refl, ap, ◌∙◌, true, false, not, ◌==◌, inl, inr, none, Option-cases, List, [],
  length, length-filter, filter-filter, filter-excluded, find-filter, find-excluded, Text, arith,
  codes,
}
use revu.Prelude.Results.{ok, ◌>>=◌}
use revu.Store.Tables.{number_keys, at_key, select, select-delete_at, select-delete_at_other}
use revu.Store.Snapshots.{envelope_key, of_local, delete_local_snapshot, get_local_snapshot}
use revu.Store.Snapshots.RoundTrip.{read_snapshot_congr, read_snapshot-absent}
use revu.Store.Reviews.{review_id, get_local_review, delete_review_row}
use revu.Store.Documents.RoundTrip.{get_document_congr, get_document-absent}
use revu.Store.Documents.{
  DocumentRow, Store, document_key, human_keys, in_local_review, of_first, of_second, without,
  get_local_draft, get_local_viewed, list_local_threads, list_local_submitted_reviews,
  delete_local_review, parse_rows, or_empty,
}

==-apart : (i j k : ℕ) → j ≢ i → (j == k) ≡ true → not (i == k) ≡ true
==-apart i j k apart h = ground arith

==-same : (i k : ℕ) → (i == k) ≡ true → not (i == k) ≡ false
==-same i k h = rw h refl

module _ {K D : Type 0} (id : ℕ) where
  in_local_review-without :
      (rows : List (DocumentRow (ℕ × K) D)) → in_local_review id (without of_first id rows) ≡ []
  in_local_review-without rows =
      filter-excluded (λ r. id == r.key.0) (λ r. not (id == r.key.0)) rows λ r. ==-same id r.key.0

  in_local_review-without_other :
      (j : ℕ) (rows : List (DocumentRow (ℕ × K) D))
      → j ≢ id
      → in_local_review j (without of_first id rows) ≡ in_local_review j rows
  in_local_review-without_other j rows apart =
      filter-filter (λ r. j == r.key.0) (λ r. not (id == r.key.0)) rows
        λ r. ==-apart id j r.key.0 apart

human_at :
    (human : Text) (j : ℕ) (key : Text × ℕ)
    → human_keys.same (human, j) key ≡ true
    → (j == key.1) ≡ true
human_at human j key h = ground (arith, h)

module _ {D : Type 0} (id : ℕ) (human : Text) where
  select-without :
      (rows : List (DocumentRow (Text × ℕ) D))
      → select human_keys document_key (human, id) (without of_second id rows) ≡ none
  select-without rows =
      find-excluded (at_key human_keys document_key (human, id)) (λ r. not (id == r.key.1)) rows
        λ r h. ==-same id r.key.1 (human_at human id r.key h)

  select-without_other :
      (j : ℕ) (rows : List (DocumentRow (Text × ℕ) D))
      → j ≢ id
      → select human_keys document_key (human, j) (without of_second id rows)
        ≡ select human_keys document_key (human, j) rows
  select-without_other j rows apart =
      find-filter (at_key human_keys document_key (human, j)) (λ r. not (id == r.key.1)) rows
        λ r h. ==-apart id j r.key.1 apart (human_at human j r.key h)

get_local_review-deleted :
    (st : Store) (id : ℕ) → get_local_review (delete_review_row st.reviews id) id ≡ none
unfolding get_local_review delete_review_row
get_local_review-deleted st id =
    let gone = select-delete_at number_keys review_id id st.reviews.rows in
    rw (get_local_review, gone) refl

get_local_review-kept :
    (st : Store) (id j : ℕ)
    → j ≢ id
    → get_local_review (delete_review_row st.reviews id) j ≡ get_local_review st.reviews j
unfolding get_local_review delete_review_row
get_local_review-kept st id j apart =
    let same = select-delete_at_other number_keys review_id j id st.reviews.rows apart in
    elim (Option-cases (select number_keys review_id j st.reviews.rows)) [
      | inl e ↦ let e' = same ∙ e in rw (get_local_review, e', e) refl
      | inr (row, e) ↦ let e' = same ∙ e in rw (get_local_review, e', e) refl
    ]

-- A deletion of a local review leaves nothing of it to be read, and counts per table the rows that
-- it took. What is read of every other local review, the pull requests' snapshots, drafts and viewed
-- files, the cached halves and blobs, and the marks of the ids are as before.
pub delete_local_review_lem :
    (st : Store) (id : ℕ)
    → let counts = (delete_local_review st id).0 in
      let out = (delete_local_review st id).1 in
      ((human : Text)
        → (get_local_review out.reviews id ≡ none)
          × (get_local_snapshot out.cache id ≡ ok none)
          × (list_local_threads out id ≡ ok [])
          × (list_local_submitted_reviews out id ≡ ok [])
          × (get_local_draft out human id ≡ ok none)
          × (get_local_viewed out human id ≡ ok (codes "{}")))
      × ((human : Text) (j : ℕ)
          → j ≢ id
          → (get_local_review out.reviews j ≡ get_local_review st.reviews j)
            × (get_local_snapshot out.cache j ≡ get_local_snapshot st.cache j)
            × (list_local_threads out j ≡ list_local_threads st j)
            × (list_local_submitted_reviews out j ≡ list_local_submitted_reviews st j)
            × (get_local_draft out human j ≡ get_local_draft st human j)
            × (get_local_viewed out human j ≡ get_local_viewed st human j))
      × ((out.cache.snapshots ≡ st.cache.snapshots)
          × (out.cache.immutables ≡ st.cache.immutables)
          × (out.cache.blobs ≡ st.cache.blobs)
          × (out.drafts ≡ st.drafts)
          × (out.viewed ≡ st.viewed)
          × (out.reviews.review_mark ≡ st.reviews.review_mark)
          × (out.reviews.entity_mark ≡ st.reviews.entity_mark))
      × (length st.reviews.rows ≡ counts.reviews_deleted + length out.reviews.rows)
      × (length st.cache.local_snapshots
          ≡ counts.snapshots_deleted + length out.cache.local_snapshots)
      × (length st.local_threads ≡ counts.threads_deleted + length out.local_threads)
      × (length st.local_submitted ≡ counts.submitted_reviews_deleted + length out.local_submitted)
      × (length st.local_drafts ≡ counts.drafts_deleted + length out.local_drafts)
      × (length st.local_viewed ≡ counts.viewed_deleted + length out.local_viewed)
unfolding delete_local_review delete_local_snapshot delete_review_row parse_rows
delete_local_review_lem st id =
    let out = (delete_local_review st id).1 in
    (
      λ human. (
        get_local_review-deleted st id,
        read_snapshot-absent of_local out.cache id
            (select-delete_at number_keys envelope_key id st.cache.local_snapshots),
        ap (parse_rows _ _) (in_local_review-without id st.local_threads),
        ap (parse_rows _ _) (in_local_review-without id st.local_submitted),
        get_document-absent human_keys _ _ (human, id) out.local_drafts
            (select-without id human st.local_drafts),
        ap (λ r. r >>= λ state. ok (or_empty state))
            (get_document-absent human_keys _ _ (human, id) out.local_viewed
              (select-without id human st.local_viewed)),
      ),
      λ human j apart. (
        get_local_review-kept st id j apart,
        read_snapshot_congr of_local j st.cache out.cache
            (select-delete_at_other number_keys envelope_key j id st.cache.local_snapshots apart)
            (λ row key at named. refl),
        ap (parse_rows _ _) (in_local_review-without_other id j st.local_threads apart),
        ap (parse_rows _ _) (in_local_review-without_other id j st.local_submitted apart),
        get_document_congr human_keys _ _ (human, j) st.local_drafts out.local_drafts
            (select-without_other id human j st.local_drafts apart),
        ap (λ r. r >>= λ state. ok (or_empty state))
            (get_document_congr human_keys _ _ (human, j) st.local_viewed out.local_viewed
              (select-without_other id human j st.local_viewed apart)),
      ),
      (refl, refl, refl, refl, refl, refl, refl),
      length-filter (at_key number_keys review_id id) st.reviews.rows,
      length-filter (at_key number_keys envelope_key id) st.cache.local_snapshots,
      length-filter (at_key number_keys of_first id) st.local_threads,
      length-filter (at_key number_keys of_first id) st.local_submitted,
      length-filter (at_key number_keys of_second id) st.local_drafts,
      length-filter (at_key number_keys of_second id) st.local_viewed,
    )
