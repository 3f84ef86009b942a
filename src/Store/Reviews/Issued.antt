-- ===== src/Store/Reviews/Issued.antt =====
-- The local reviews under every operation of the store that changes them: the order in which ids
-- are issued.
use revu.Prelude.{
  ℕ, ◌+◌, ◌≤◌, ◌<◌, ◌≡◌, refl, ap, Bool, not, ◌||◌, Bool-cases, inl, inr, none, Option-cases, ◌++◌,
  ◌==◌, All, All-append, All-mono, All-Contains, Contains-All, filter, Text, arith,
}
use revu.Prelude.Results.{ok, Result-cases}
use revu.Retention.Sets.{Contains-filter}
use revu.Store.Tables.{at_key, number_keys}
use revu.Store.Tables.Distinct.{IsDistinct, filter-IsDistinct}
use revu.Retention.Refs.{local_review_id_base, is_local_review_id}
use revu.Store.Reviews.{
  LocalReviewRow, LocalReviewSummary, NewLocalReview, LocalReviewSyncState, to_local_review_summary,
  Reviews, branch_keys, branches_of, select_local_review, review_id, new_row, create_local_review,
  patched, patch_local_review_sync, bump_id_high_water, local_entity_id_meta_key,
  local_entity_id_base, next_local_entity_id, archived, mark_local_review_archived,
  delete_review_row, seeded,
}
use revu.Store.Reviews.Minted.{
  with_new-IsMinted, update_at-IsMinted, archived-Keeps, InBand, IsMinted,
  create_local_review-recorded, create_local_review-new,
}

-- What the operations of the store do to the rows and the marks.
pub data ReviewStep : Reviews → Reviews → Type 0 where
  created :
      (at : Text) (st : Reviews) (input : NewLocalReview)
      → ReviewStep st (create_local_review at st input).1
  synced :
      (at : Text) (st : Reviews) (id : ℕ) (state : LocalReviewSyncState)
      → ReviewStep st (patch_local_review_sync at st id state)
  entity_issued : (st : Reviews) → ReviewStep st (next_local_entity_id st).1
  archived_as : (st : Reviews) (id pr : ℕ) → ReviewStep st (mark_local_review_archived st id pr).1
  deleted : (st : Reviews) (id : ℕ) → ReviewStep st (delete_review_row st id)

pub data ReviewReach : Reviews → Reviews → Type 0 where
  here : (st : Reviews) → ReviewReach st st
  then_step : (a b c : Reviews) → ReviewReach a b → ReviewStep b c → ReviewReach a c

-- The mark has not fallen.
abbrev pub IsMintedAfter : ℕ → Reviews → Type 0
IsMintedAfter mark st = (later : ℕ) × (mark ≤ later) × IsMinted later st

create_local_review-IsMintedAfter :
    (at : Text) (st : Reviews) (input : NewLocalReview) (mark : ℕ)
    → IsMinted mark st
    → IsMintedAfter mark (create_local_review at st input).1
create_local_review-IsMintedAfter at st input mark h =
    elim (Option-cases (select_local_review st.rows input)) [
      | inl e ↦
          rw (create_local_review-new at st input mark e h)
            (mark + 1, omega arith, with_new-IsMinted at st input mark e h)
      | inr (row, e) ↦ rw (create_local_review-recorded at st input row e) (mark, omega arith, h)
    ]

pub next_local_entity_id-IsMinted :
    (mark : ℕ) (st : Reviews) → IsMinted mark st → IsMinted mark (next_local_entity_id st).1
unfolding next_local_entity_id
next_local_entity_id-IsMinted mark st h =
    elim (Result-cases
      (bump_id_high_water st.entity_mark local_entity_id_meta_key local_entity_id_base)) [
        | inl (thrown, e) ↦ rw (next_local_entity_id, e) h
        | inr (out, e) ↦ rw (next_local_entity_id, e) h
      ]

pub mark_local_review_archived-IsMinted :
    (mark : ℕ) (st : Reviews) (id pr : ℕ)
    → IsMinted mark st
    → IsMinted mark (mark_local_review_archived st id pr).1
unfolding mark_local_review_archived
mark_local_review_archived-IsMinted mark st id pr h =
    elim (Bool-cases (pr == 0 || is_local_review_id pr)) [
      | inl e ↦ rw (mark_local_review_archived, e) h
      | inr e ↦
          rw (mark_local_review_archived, e)
            (update_at-IsMinted mark st id (archived pr) (archived-Keeps pr) h)
    ]

pub delete_review_row-IsMinted :
    (mark : ℕ) (st : Reviews) (id : ℕ) → IsMinted mark st → IsMinted mark (delete_review_row st id)
unfolding delete_review_row
delete_review_row-IsMinted mark st id (at_mark, above, band, ids, branches) =
    let keep : LocalReviewRow → Bool = λ r. not (at_key number_keys review_id id r) in
    let left : All (InBand mark) (filter keep st.rows) =
      All-Contains (InBand mark) (filter keep st.rows)
        λ r m. Contains-All (InBand mark) st.rows band ((Contains-filter keep r st.rows).0 m).0 in
    let ids_left = filter-IsDistinct number_keys review_id keep st.rows ids in
    let branches_left = filter-IsDistinct branch_keys branches_of keep st.rows branches in
    (at_mark, above, left, ids_left, branches_left)

ReviewStep-IsMinted :
    {a b : Reviews} → ReviewStep a b → (mark : ℕ) → IsMinted mark a → IsMintedAfter mark b
unfolding patch_local_review_sync
ReviewStep-IsMinted (created at st input) mark h =
    create_local_review-IsMintedAfter at st input mark h
ReviewStep-IsMinted (synced at st id state) mark h =
    (mark, omega arith, update_at-IsMinted mark st id (patched at state) (λ r. refl, λ r. refl) h)
ReviewStep-IsMinted (entity_issued st) mark h =
    (mark, omega arith, next_local_entity_id-IsMinted mark st h)
ReviewStep-IsMinted (archived_as st id pr) mark h =
    (mark, omega arith, mark_local_review_archived-IsMinted mark st id pr h)
ReviewStep-IsMinted (deleted st id) mark h =
    (mark, omega arith, delete_review_row-IsMinted mark st id h)

ReviewReach-IsMinted :
    {a b : Reviews} → ReviewReach a b → (mark : ℕ) → IsMinted mark a → IsMintedAfter mark b
ReviewReach-IsMinted (here st) mark h = (mark, omega arith, h)
ReviewReach-IsMinted (then_step a b c reach step) mark h =
    let (m, over, mid) = ReviewReach-IsMinted reach mark h in
    let (n, further, last) = ReviewStep-IsMinted step m mid in (n, omega arith, last)

pub seeded-IsMinted : IsMinted 999999999 seeded
seeded-IsMinted = (refl, omega arith, tt, tt, tt)

-- From the tables as they are created, through any operations: ids are in the band of local reviews,
-- no two rows share an id or their branches, and a review made for branches that have none gets
-- an id that is over the id of every row of this state and of every earlier one, so a deleted
-- review's id is not given again.
pub ids_are_new :
    (a b : Reviews) (at : Text) (input : NewLocalReview)
    → ReviewReach seeded a
    → ReviewReach a b
    → All (λ r. local_review_id_base ≤ r.id) b.rows
      × IsDistinct number_keys review_id b.rows
      × IsDistinct branch_keys branches_of b.rows
      × (select_local_review b.rows input ≡ none
          → (summary : LocalReviewSummary) × ((create_local_review at b input).0 ≡ ok summary)
            × (local_review_id_base ≤ summary.id)
            × All (λ r. r.id < summary.id) (a.rows ++ b.rows))
ids_are_new a b at input before reach =
    let (first, _, earlier) = ReviewReach-IsMinted before 999999999 seeded-IsMinted in
    let (mark, over, later) = ReviewReach-IsMinted reach first earlier in
    let (_, above, band, ids, branches) = later in
    let (_, _, old_band, _, _) = earlier in
    (
      All-mono (InBand mark) (λ r. local_review_id_base ≤ r.id) (λ r h. h.0) b.rows band,
      ids,
      branches,
      λ absent. (
        to_local_review_summary (new_row (mark + 1) input at),
        ap (λ x. x.0) (create_local_review-new at b input mark absent later),
        above,
        All-append (λ r. r.id < mark + 1) a.rows b.rows
            (All-mono (InBand first) (λ r. r.id < mark + 1) (λ r h. let high = h.1 in omega arith)
              a.rows old_band)
            (All-mono (InBand mark) (λ r. r.id < mark + 1) (λ r h. let high = h.1 in omega arith)
              b.rows band),
      ),
    )
