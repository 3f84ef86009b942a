-- ===== src/Store/Reviews/Registry.antt =====
-- What the local reviews of the store promise: a registry that assigns an id to the branches of a
-- review, of which the rows are the implementation.
use revu.Prelude.{
  ℕ, ◌+◌, ◌≡◌, refl, sym, ap, ◌∙◌, Bool, not, ◌||◌, Bool-cases, inl, inr, Option, none, some,
  Option-cases, List, [], ◌∷◌, ◌++◌, map, filter, if◌then◌else◌, ◌==◌, Text,
}
use revu.Prelude.Results.{Result, ok, Result-cases}
use revu.Store.Tables.{at_key, number_keys, select}
use revu.Store.Tables.Distinct.{
  IsDistinct, select-append, select-append_found, select-filter, select-map,
}
use revu.Retention.Refs.{is_local_review_id}
use revu.Store.Reviews.{
  LocalReviewRow, LocalReviewSummary, NewLocalReview, LocalReviewSyncState, to_local_review_summary,
  Mark, Thrown, bump_id_high_water, local_entity_id_meta_key, local_entity_id_base, Reviews,
  Branches, branch_keys, branches_of, asked, select_local_review, review_id, new_row,
  create_local_review, patched, update_at, patch_local_review_sync, next_local_entity_id, archived,
  mark_local_review_archived, delete_review_row, seeded,
}
use revu.Store.Reviews.Minted.{
  IsMinted, Keeps, when_id-Keeps, archived-Keeps, create_local_review-recorded,
  create_local_review-new, with_new-IsMinted, update_at-IsMinted,
}
use revu.Store.Reviews.Issued.{
  seeded-IsMinted, next_local_entity_id-IsMinted, delete_review_row-IsMinted,
}

pub record Registry : Type 0 where
  pub assigned : Branches → Option ℕ
  pub last : ℕ

abbrev pub nothing_assigned : Registry
nothing_assigned = record { assigned = λ b. none; last = 999999999 }

-- The id of the branches, a new one where they have none.
abbrev pub register : Registry → Branches → ℕ × Registry
register reg b = elim (reg.assigned b) [
  | some id ↦ (id, reg)
  | none ↦ (
    reg.last + 1,
    record {
      assigned = λ c. if branch_keys.same c b then some (reg.last + 1) else reg.assigned c;
      last = reg.last + 1;
    },
  )
]

abbrev pub unregister : ℕ → Registry → Registry
unregister id reg = record reg {
  assigned = λ c. elim (reg.assigned c) [
    | none ↦ none
    | some other ↦ if id == other then none else some other
  ];
}

abbrev pub id_of : Option LocalReviewRow → Option ℕ
id_of none = none
id_of (some row) = some row.id

abbrev pub assigned_in : List LocalReviewRow → Branches → Option ℕ
assigned_in rows b = id_of (select branch_keys branches_of b rows)

-- The rows assign what the registry assigns, from the same mark.
abbrev pub Implements : Reviews → Registry → Type 0
Implements st reg = IsMinted reg.last st × ((b : Branches) → assigned_in st.rows b ≡ reg.assigned b)

assigned_in-append :
    (rows : List LocalReviewRow) (row : LocalReviewRow) (b : Branches)
    → select branch_keys branches_of (branches_of row) rows ≡ none
    → assigned_in (rows ++ (row ∷ [])) b
      ≡ (if branch_keys.same b (branches_of row) then some row.id else assigned_in rows b)
assigned_in-append rows row b absent = elim (Bool-cases (branch_keys.same b (branches_of row))) [
  | inl e ↦
      let own = (branch_keys.same_iff b (branches_of row)).0 e in
      let none_there : select branch_keys branches_of b rows ≡ none =
        ap (λ c. select branch_keys branches_of c rows) own ∙ absent in
      ap id_of (select-append branch_keys branches_of b rows row none_there) ∙ rw e refl
  | inr e ↦ elim (Option-cases (select branch_keys branches_of b rows)) [
    | inl none_there ↦
        ap id_of (select-append branch_keys branches_of b rows row none_there)
        ∙ rw (e, none_there) refl
    | inr (found, there) ↦
        ap id_of (select-append_found branch_keys branches_of b rows row found there)
        ∙ rw (e, there) refl
  ]
]

assigned_in-filter :
    (id : ℕ) (rows : List LocalReviewRow) (b : Branches)
    → IsDistinct branch_keys branches_of rows
    → assigned_in (filter (λ r. not (at_key number_keys review_id id r)) rows) b
      ≡ (elim (assigned_in rows b) [
        | none ↦ none
        | some other ↦ if id == other then none else some other
      ])
assigned_in-filter id rows b distinct =
    let keep : LocalReviewRow → Bool = λ r. not (at_key number_keys review_id id r) in
    elim (Option-cases (select branch_keys branches_of b rows)) [
      | inl e ↦ ap id_of (select-filter branch_keys branches_of keep b rows distinct) ∙ rw e refl
      | inr (row, e) ↦ elim (Bool-cases (id == row.id)) [
        | inl same ↦
            ap id_of (select-filter branch_keys branches_of keep b rows distinct)
            ∙ rw (e, same) refl
        | inr other ↦
            ap id_of (select-filter branch_keys branches_of keep b rows distinct)
            ∙ rw (e, other) refl
      ]
    ]

assigned_in-map :
    (f : LocalReviewRow → LocalReviewRow) (rows : List LocalReviewRow) (b : Branches)
    → ((r : LocalReviewRow) → (f r).id ≡ r.id)
    → ((r : LocalReviewRow) → branches_of (f r) ≡ branches_of r)
    → assigned_in (map f rows) b ≡ assigned_in rows b
assigned_in-map f rows b ids branches =
    elim (Option-cases (select branch_keys branches_of b rows)) [
      | inl e ↦ ap id_of (select-map branch_keys branches_of f branches b rows) ∙ rw e refl
      | inr (row, e) ↦
          let same = ids row in
          ap id_of (select-map branch_keys branches_of f branches b rows) ∙ rw (e, same) refl
    ]

abbrev Answers : Text → Reviews → Registry → NewLocalReview → Type 0
Answers at st reg input =
    ((summary : LocalReviewSummary) × ((create_local_review at st input).0 ≡ ok summary)
      × (summary.id ≡ (register reg (asked input)).0))
    × Implements (create_local_review at st input).1 (register reg (asked input)).1

create_local_review-Answers :
    (at : Text) (st : Reviews) (reg : Registry) (input : NewLocalReview)
    → Implements st reg
    → Answers at st reg input
create_local_review-Answers at st reg input (minted, same) =
    elim (Option-cases (select_local_review st.rows input)) [
      | inl e ↦
          let row = new_row (reg.last + 1) input at in
          let free : reg.assigned (asked input) ≡ none = sym (same (asked input)) ∙ ap id_of e in
          let made = create_local_review-new at st input reg.last e minted in
          rw (Answers, made, register, free)
            (
              (to_local_review_summary row, refl, refl),
              (
                with_new-IsMinted at st input reg.last e minted,
                λ b.
                    assigned_in-append st.rows row b e
                    ∙ ap (λ o. if branch_keys.same b (asked input) then some (reg.last + 1) else o)
                        (same b),
              ),
            )
      | inr (row, e) ↦
          let known : reg.assigned (asked input) ≡ some row.id =
            sym (same (asked input)) ∙ ap id_of e in
          let found = create_local_review-recorded at st input row e in
          rw (Answers, found, register, known)
            ((to_local_review_summary row, refl, refl), (minted, same))
    ]

update_at-Implements :
    (st : Reviews) (reg : Registry) (id : ℕ) (change : LocalReviewRow → LocalReviewRow)
    → Keeps change
    → Implements st reg
    → Implements record st { rows = update_at id change st.rows } reg
update_at-Implements st reg id change keeps (minted, same) =
    let (ids, branches) = when_id-Keeps id change keeps in
    (
      update_at-IsMinted reg.last st id change keeps minted,
      λ b. assigned_in-map _ st.rows b ids branches ∙ same b,
    )

mark_local_review_archived-Implements :
    (st : Reviews) (reg : Registry) (id pr : ℕ)
    → Implements st reg
    → Implements (mark_local_review_archived st id pr).1 reg
unfolding mark_local_review_archived
mark_local_review_archived-Implements st reg id pr h =
    elim (Bool-cases (pr == 0 || is_local_review_id pr)) [
      | inl e ↦ rw (mark_local_review_archived, e) h
      | inr e ↦
          rw (mark_local_review_archived, e)
            (update_at-Implements st reg id (archived pr) (archived-Keeps pr) h)
    ]

delete_review_row-Implements :
    (st : Reviews) (reg : Registry) (id : ℕ)
    → Implements st reg
    → Implements (delete_review_row st id) (unregister id reg)
unfolding delete_review_row
delete_review_row-Implements st reg id (minted, same) = (
  delete_review_row-IsMinted reg.last st id minted,
  λ b.
      assigned_in-filter id st.rows b minted.4
      ∙ ap (λ o. elim o [ none ↦ none | some other ↦ if id == other then none else some other ])
          (same b),
)

patch_local_review_sync-Implements :
    (at : Text) (st : Reviews) (reg : Registry) (id : ℕ) (state : LocalReviewSyncState)
    → Implements st reg
    → Implements (patch_local_review_sync at st id state) reg
unfolding patch_local_review_sync
patch_local_review_sync-Implements at st reg id state =
    update_at-Implements st reg id (patched at state) (λ r. refl, λ r. refl)

abbrev entity_bump : Reviews → Result Thrown (ℕ × Mark)
entity_bump st = bump_id_high_water st.entity_mark local_entity_id_meta_key local_entity_id_base

next_local_entity_id-rows : (st : Reviews) → (next_local_entity_id st).1.rows ≡ st.rows
unfolding next_local_entity_id
next_local_entity_id-rows st = elim (Result-cases (entity_bump st)) [
  | inl (thrown, e) ↦ rw (next_local_entity_id, e) refl
  | inr (out, e) ↦ rw (next_local_entity_id, e) refl
]

-- Rows that assign what a registry assigns go on doing so: creating a review answers the id that the
-- registry gives to the branches, the one they have or else the next; deleting one takes its
-- branches out of the registry; a sync, an archival and an id for an entity leave it alone.
pub reviews_implement_registry :
    (st : Reviews) (reg : Registry)
    → Implements st reg
    → ((at : Text) (input : NewLocalReview)
        → ((summary : LocalReviewSummary) × ((create_local_review at st input).0 ≡ ok summary)
            × (summary.id ≡ (register reg (asked input)).0))
          × Implements (create_local_review at st input).1 (register reg (asked input)).1)
      × ((id : ℕ) → Implements (delete_review_row st id) (unregister id reg))
      × ((at : Text) (id : ℕ) (state : LocalReviewSyncState)
          → Implements (patch_local_review_sync at st id state) reg)
      × ((id pr : ℕ) → Implements (mark_local_review_archived st id pr).1 reg)
      × Implements (next_local_entity_id st).1 reg
reviews_implement_registry st reg h = (
  λ at input. create_local_review-Answers at st reg input h,
  λ id. delete_review_row-Implements st reg id h,
  λ at id state. patch_local_review_sync-Implements at st reg id state h,
  λ id pr. mark_local_review_archived-Implements st reg id pr h,
  (next_local_entity_id-IsMinted reg.last st h.0, λ b. rw (next_local_entity_id-rows st) (h.1 b)),
)

pub seeded-Implements : Implements seeded nothing_assigned
seeded-Implements = (seeded-IsMinted, λ b. refl)
