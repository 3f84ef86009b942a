-- ===== src/Store/Documents/RoundTrip.antt =====
-- Storing a document and reading it back; the drafts of a local review.
use revu.Prelude.{ℕ, ◌≡◌, ◌≢◌, refl, ◌∙◌, inl, inr, none, some, Option-cases, List, Text}
use revu.Prelude.Results.{ok}
use revu.Api.{ReviewDraft}
use revu.Retention.{Table, RowKey, local_drafts_table}
use revu.Store.Tables.{
  Keys, select, delete_at, select-upsert, select-upsert_other, select-delete_at,
  select-delete_at_other,
}
use revu.Store.Documents.{
  DocumentRow, Store, document_key, human_keys, human_row, get_document, put_document,
  get_local_draft, put_local_draft, delete_local_draft,
}

module _ {K D : Type 0} (keys : Keys K) (table : Table) (name : K → RowKey) where
  pub get_document-absent :
      (key : K) (rows : List (DocumentRow K D))
      → select keys document_key key rows ≡ none
      → get_document keys table name key rows ≡ ok none
  unfolding get_document
  get_document-absent key rows absent = rw (get_document, absent) refl

  pub get_document_congr :
      (key : K) (rows rows' : List (DocumentRow K D))
      → select keys document_key key rows' ≡ select keys document_key key rows
      → get_document keys table name key rows' ≡ get_document keys table name key rows
  unfolding get_document
  get_document_congr key rows rows' same = elim (Option-cases (select keys document_key key rows)) [
    | inl e ↦ let e' = same ∙ e in rw (get_document, e', e) refl
    | inr (row, e) ↦ let e' = same ∙ e in rw (get_document, e', e) refl
  ]

  pub get_document-put_document :
      (key : K) (document : D) (rows : List (DocumentRow K D))
      → get_document keys table name key (put_document keys key document rows) ≡ ok (some document)
  unfolding get_document
  get_document-put_document key document rows =
      let there =
        select-upsert keys document_key record { key = key; document = some document } rows in
      rw (get_document, there) refl

  pub get_document-put_document_other :
      (other key : K) (document : D) (rows : List (DocumentRow K D))
      → other ≢ key
      → get_document keys table name other (put_document keys key document rows)
        ≡ get_document keys table name other rows
  get_document-put_document_other other key document rows apart = get_document_congr other rows _ (
      select-upsert_other keys document_key other record { key = key; document = some document }
        rows apart)

  pub get_document-delete_at :
      (key : K) (rows : List (DocumentRow K D))
      → get_document keys table name key (delete_at keys document_key key rows) ≡ ok none
  get_document-delete_at key rows =
      get_document-absent key _ (select-delete_at keys document_key key rows)

  pub get_document-delete_at_other :
      (other key : K) (rows : List (DocumentRow K D))
      → other ≢ key
      → get_document keys table name other (delete_at keys document_key key rows)
        ≡ get_document keys table name other rows
  get_document-delete_at_other other key rows apart =
      get_document_congr other rows _
        (select-delete_at_other keys document_key other key rows apart)

-- A draft stored for a human under a local review is read back for that human; discarding it leaves
-- none there; and neither touches the draft of another human, or under another review.
pub local_drafts_are_apart :
    (st : Store) (draft : ReviewDraft) (human_id : Text) (local_id : ℕ)
    → (get_local_draft (put_local_draft st draft) draft.human_id draft.pr_number ≡ ok (some draft))
      × (get_local_draft (delete_local_draft st human_id local_id) human_id local_id ≡ ok none)
      × ((human : Text) (id : ℕ)
          → ◌≢◌ {A = Text × ℕ} (human, id) (draft.human_id, draft.pr_number)
          → get_local_draft (put_local_draft st draft) human id ≡ get_local_draft st human id)
      × ((human : Text) (id : ℕ)
          → ◌≢◌ {A = Text × ℕ} (human, id) (human_id, local_id)
          → get_local_draft (delete_local_draft st human_id local_id) human id
            ≡ get_local_draft st human id)
local_drafts_are_apart st draft human_id local_id = (
  get_document-put_document human_keys local_drafts_table human_row
      (draft.human_id, draft.pr_number) draft st.local_drafts,
  get_document-delete_at human_keys local_drafts_table human_row (human_id, local_id)
      st.local_drafts,
  λ human id.
      get_document-put_document_other human_keys local_drafts_table human_row (human, id)
        (draft.human_id, draft.pr_number) draft st.local_drafts,
  λ human id.
      get_document-delete_at_other human_keys local_drafts_table human_row (human, id)
        (human_id, local_id) st.local_drafts,
)
