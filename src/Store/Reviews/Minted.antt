-- ===== src/Store/Reviews/Minted.antt =====
-- The ids of local reviews: the band, the mark that they stay under, and their order of issue.
use revu.Prelude.{
  ℕ, ◌+◌, ◌≤◌, ◌≡◌, refl, ◌∙◌, true, inl, inr, none, some, Option-cases, List, [], ◌∷◌, ◌++◌, map,
  if◌then◌else◌, if_ind, ◌==◌, leb, le→leb, All, All-append, All-mono, Text, arith,
}
use revu.Prelude.Results.{ok}
use revu.Store.Tables.{at_key, number_keys, select, IsStored}
use revu.Store.Tables.Distinct.{
  IsDistinct, select-append, select-eq-none, IsStored-none, append-IsDistinct, map-IsDistinct,
}
use revu.Retention.Refs.{local_review_id_base}
use revu.Store.Reviews.{
  LocalReviewRow, NewLocalReview, to_local_review_summary, decimal, Reviews, branch_keys,
  branches_of, asked, select_local_review, recorded, review_id, new_row, insert_review, mint,
  create_local_review, update_at, archived,
}

abbrev pub InBand : ℕ → LocalReviewRow → Type 0
InBand mark row = (local_review_id_base ≤ row.id) × (row.id ≤ mark)

-- The mark is decimal and not under the band, no id is outside the band or over the mark, and no two
-- rows share an id or their branches.
abbrev pub IsMinted : ℕ → Reviews → Type 0
IsMinted mark st =
    (st.review_mark ≡ decimal mark)
    × (local_review_id_base ≤ mark + 1)
    × All (InBand mark) st.rows
    × IsDistinct number_keys review_id st.rows
    × IsDistinct branch_keys branches_of st.rows

InBand-not_next :
    (mark : ℕ) (rows : List LocalReviewRow)
    → All (InBand mark) rows
    → ¬ IsStored number_keys review_id (mark + 1) rows
InBand-not_next mark [] h m = m
InBand-not_next mark (r ∷ rows) ((_, under), h) (inl e) = absurd (omega arith)
InBand-not_next mark (r ∷ rows) (_, h) (inr m) = InBand-not_next mark rows h m

-- The store after a review was made for branches that had none.
abbrev pub with_new : ℕ → Text → Reviews → NewLocalReview → Reviews
with_new mark at st input = record st {
  rows = st.rows ++ (new_row (mark + 1) input at ∷ []);
  review_mark = decimal (mark + 1);
}

pub create_local_review-recorded :
    (at : Text) (st : Reviews) (input : NewLocalReview) (row : LocalReviewRow)
    → select_local_review st.rows input ≡ some row
    → create_local_review at st input ≡ (ok (to_local_review_summary row), st)
unfolding create_local_review
create_local_review-recorded at st input row there =
    rw (create_local_review, there, recorded, there) refl

insert_review-new :
    (row : LocalReviewRow) (rows : List LocalReviewRow)
    → select branch_keys branches_of (branches_of row) rows ≡ none
    → select number_keys review_id row.id rows ≡ none
    → insert_review row rows ≡ ok (rows ++ (row ∷ []))
insert_review-new row rows branches id = rw (insert_review, branches, id) refl

mint-new :
    (at : Text) (st : Reviews) (input : NewLocalReview) (mark : ℕ)
    → select_local_review st.rows input ≡ none
    → IsMinted mark st
    → mint at st input ≡ ok (with_new mark at st input)
mint-new at st input mark absent (at_mark, above, band, _, _) =
    let bumped : leb local_review_id_base (mark + 1) ≡ true =
      le→leb local_review_id_base (mark + 1) above in
    let fresh =
      IsStored-none number_keys review_id (mark + 1) st.rows (InBand-not_next mark st.rows band) in
    let inserted = insert_review-new (new_row (mark + 1) input at) st.rows absent fresh in
    rw (mint, absent, at_mark, bumped, inserted) refl

select-new :
    (at : Text) (st : Reviews) (input : NewLocalReview) (mark : ℕ)
    → select_local_review st.rows input ≡ none
    → select_local_review (with_new mark at st input).rows input
      ≡ some (new_row (mark + 1) input at)
select-new at st input mark absent =
    let row = new_row (mark + 1) input at in
    let own : at_key branch_keys branches_of (asked input) row ≡ true =
      (branch_keys.same_iff (asked input) (asked input)).1 refl in
    select-append branch_keys branches_of (asked input) st.rows row absent ∙ rw own refl

pub create_local_review-new :
    (at : Text) (st : Reviews) (input : NewLocalReview) (mark : ℕ)
    → select_local_review st.rows input ≡ none
    → IsMinted mark st
    → create_local_review at st input
      ≡ (ok (to_local_review_summary (new_row (mark + 1) input at)), with_new mark at st input)
unfolding create_local_review
create_local_review-new at st input mark absent h =
    let minted = mint-new at st input mark absent h in
    let found = select-new at st input mark absent in
    rw (create_local_review, minted, recorded, found) refl

pub with_new-IsMinted :
    (at : Text) (st : Reviews) (input : NewLocalReview) (mark : ℕ)
    → select_local_review st.rows input ≡ none
    → IsMinted mark st
    → IsMinted (mark + 1) (with_new mark at st input)
with_new-IsMinted at st input mark absent (at_mark, above, band, ids, branches) =
    let row = new_row (mark + 1) input at in
    let wider : (r : LocalReviewRow) → InBand mark r → InBand (mark + 1) r =
      λ r (low, high). (low, omega arith) in
    (
      refl,
      omega arith,
      All-append (InBand (mark + 1)) st.rows (row ∷ [])
          (All-mono (InBand mark) (InBand (mark + 1)) wider st.rows band)
          ((above, omega arith), tt),
      append-IsDistinct number_keys review_id st.rows row (InBand-not_next mark st.rows band) ids,
      append-IsDistinct branch_keys branches_of st.rows row
          (select-eq-none branch_keys branches_of (asked input) st.rows absent) branches,
    )

-- An update of columns outside the keys.
abbrev pub Keeps : (LocalReviewRow → LocalReviewRow) → Type 0
Keeps change =
    ((r : LocalReviewRow) → (change r).id ≡ r.id)
    × ((r : LocalReviewRow) → branches_of (change r) ≡ branches_of r)

pub when_id-Keeps :
    (id : ℕ) (change : LocalReviewRow → LocalReviewRow)
    → Keeps change
    → Keeps (λ r. if r.id == id then change r else r)
when_id-Keeps id change (ids, branches) = (
  λ r. if_ind (λ (x : LocalReviewRow). x.id ≡ r.id) (r.id == id) (ids r) refl,
  λ r.
      if_ind (λ (x : LocalReviewRow). branches_of x ≡ branches_of r) (r.id == id) (branches r) refl,
)

map-InBand :
    (f : LocalReviewRow → LocalReviewRow) (mark : ℕ) (rows : List LocalReviewRow)
    → ((r : LocalReviewRow) → (f r).id ≡ r.id)
    → All (InBand mark) rows
    → All (InBand mark) (map f rows)
map-InBand f mark [] ids h = tt
map-InBand f mark (r ∷ rows) ids (first, h) = (rw (ids r) first, map-InBand f mark rows ids h)

pub update_at-IsMinted :
    (mark : ℕ) (st : Reviews) (id : ℕ) (change : LocalReviewRow → LocalReviewRow)
    → Keeps change
    → IsMinted mark st
    → IsMinted mark record st { rows = update_at id change st.rows }
update_at-IsMinted mark st id change keeps (at_mark, above, band, ids, branches) =
    let (same_id, same_branches) = when_id-Keeps id change keeps in
    let f : LocalReviewRow → LocalReviewRow = λ r. if r.id == id then change r else r in
    (
      at_mark,
      above,
      map-InBand f mark st.rows same_id band,
      map-IsDistinct number_keys review_id f same_id st.rows ids,
      map-IsDistinct branch_keys branches_of f same_branches st.rows branches,
    )

pub archived-Keeps : (pr : ℕ) → Keeps (archived pr)
archived-Keeps pr = (
  λ r. elim (Option-cases r.archived_pr) [
    | inl e ↦ rw (archived, e) refl
    | inr (first, e) ↦ rw (archived, e) refl
  ],
  λ r. elim (Option-cases r.archived_pr) [
    | inl e ↦ rw (archived, e) refl
    | inr (first, e) ↦ rw (archived, e) refl
  ],
)
