-- ===== src/Reconcile/Report.antt =====
-- When a reconcile reports, and what its report holds.
use revu.Prelude.{
  ℕ, ◌≡◌, ◌≢◌, refl, ap₂, ◌↔◌, inl, inr, true, Option, none, some, List, [], ◌∷◌, map, All, Text,
  Bool-cases, arith,
}
use revu.Prelude.Results.{ok, >>=-eq-ok}
use revu.Api.{PendingComment, ReviewDraft, BlobIndex, SnapshotImmutable, ReconcileReport}
use revu.Anchor.{select_anchor_blob_sha}
use revu.Anchor.Pending.{comment_of, comment_of-classify_pending_comment}
use revu.Reconcile.{
  ReconcileStore, ReconcileError, no_draft, no_snapshot, note_missing, add_missing, missing_objects,
  new_commits_since, classify_all, report_on, report_of, or_error, reconcile_draft, blob_lines,
}

-- The object that a comment is anchored against is in the store, if it has one.
abbrev pub IsStored : ReconcileStore → Option Text → Type 0
IsStored store none = Unit
IsStored store (some sha) = store.has_blob sha ≡ true

module _ (store : ReconcileStore) (index : BlobIndex) where
  abbrev pub HasObject : PendingComment → Type 0
  HasObject c = IsStored store (select_anchor_blob_sha (index c.path) c.side)

  add_missing-ne-nil : (sha : Text) (missing : List Text) → add_missing sha missing ≢ []
  add_missing-ne-nil sha [] e = cc
  add_missing-ne-nil sha (m ∷ ms) e = ground (arith, e)

  note_missing-nil :
      (sha : Option Text) (missing : List Text)
      → (note_missing store sha missing ≡ []) ↔ ((missing ≡ []) × IsStored store sha)
  note_missing-nil none missing = (λ e. (e, tt), λ (e, _). e)
  note_missing-nil (some sha) missing = elim (Bool-cases (store.has_blob sha)) [
    | inl e ↦ rw e (λ h. (h, refl), λ h. h.0)
    | inr e ↦ rw e (λ h. absurd (add_missing-ne-nil sha missing h), λ h. cc)
  ]

  missing_objects-nil :
      (cs : List PendingComment) (missing : List Text)
      → (missing_objects store index cs missing ≡ []) ↔ ((missing ≡ []) × All HasObject cs)
  unfolding missing_objects
  missing_objects-nil [] missing = (λ e. (e, tt), λ h. h.0)
  missing_objects-nil (c ∷ cs) missing =
      let sha = select_anchor_blob_sha (index c.path) c.side in
      let rest = missing_objects-nil cs (note_missing store sha missing) in
      let one = note_missing-nil sha missing in
      (
        λ e.
            let (here, later) = rest.0 e in
            let (first, stored) = one.0 here in (first, (stored, later)),
        λ (first, (stored, later)). rest.1 (one.1 (first, stored), later),
      )

map-comment_of :
    (store : ReconcileStore) (snap : SnapshotImmutable) (cs : List PendingComment)
    → map comment_of (classify_all store snap cs) ≡ cs
unfolding classify_all
map-comment_of store snap [] = refl
map-comment_of store snap (c ∷ cs) =
    ap₂ ◌∷◌ (comment_of-classify_pending_comment c snap.files snap.blob_index (blob_lines store))
      (map-comment_of store snap cs)

or_error-eq-ok :
    {A : Type 0} (o : Option A) (e : ReconcileError) {a : A} → or_error o e ≡ ok a → o ≡ some a
or_error-eq-ok none e h = cc
or_error-eq-ok (some a) e h = cc

report_on_lem :
    (store : ReconcileStore) (draft : ReviewDraft) (snap : SnapshotImmutable) (n : ℕ)
    {r : ReconcileReport}
    → report_on store draft snap n ≡ ok r
    → All (HasObject store snap.blob_index) draft.comments
      × (r.results ≡ classify_all store snap draft.comments)
      × (r.draft_head_sha ≡ draft.head_sha)
      × (r.current_head_sha ≡ snap.head_sha)
      × (r.new_commits ≡ new_commits_since draft.head_sha snap.commits)
unfolding report_on
report_on_lem store draft snap n h =
    let missing = missing_objects store snap.blob_index draft.comments [] in
    let none_missing : missing ≡ [] = ground (arith, h) in
    (
      ((missing_objects-nil store snap.blob_index draft.comments []).0 none_missing).1,
      ground (arith, h),
      ground (arith, h),
      ground (arith, h),
      ground (arith, h),
    )

report_on_total :
    (store : ReconcileStore) (draft : ReviewDraft) (snap : SnapshotImmutable) (n : ℕ)
    → All (HasObject store snap.blob_index) draft.comments
    → (r : ReconcileReport) × (report_on store draft snap n ≡ ok r)
unfolding report_on
report_on_total store draft snap n all =
    let none_missing =
      (missing_objects-nil store snap.blob_index draft.comments []).1 (refl, all) in
    (report_of store draft snap n, rw none_missing)

-- With a draft and a snapshot in the store, a reconcile reports exactly when every object that the
-- draft's comments are anchored against is in the store; otherwise it refuses.
pub reconcile_draft-eq-ok_iff :
    (store : ReconcileStore) (human_id : Text) (n : ℕ) (draft : ReviewDraft)
    (snap : SnapshotImmutable)
    → store.get_draft human_id n ≡ some draft
    → store.get_snapshot n ≡ some snap
    → ((r : ReconcileReport) × (reconcile_draft store human_id n ≡ ok r))
      ↔ All (HasObject store snap.blob_index) draft.comments
unfolding reconcile_draft
reconcile_draft-eq-ok_iff store human_id n draft snap d s =
    rw (d, s) (λ (r, h). (report_on_lem store draft snap n h).0, report_on_total store draft snap n)

-- A report that is returned is about a draft and a snapshot of the store, has one result for each
-- comment of the draft, in order, and every object that the comments are anchored against is in
-- the store; so no result stands for an object that is missing.
pub reconcile_draft-report :
    (store : ReconcileStore) (human_id : Text) (n : ℕ) (r : ReconcileReport)
    → reconcile_draft store human_id n ≡ ok r
    → (draft : ReviewDraft) × (snap : SnapshotImmutable) × (store.get_draft human_id n ≡ some draft)
      × (store.get_snapshot n ≡ some snap)
      × (map comment_of r.results ≡ draft.comments)
      × All (HasObject store snap.blob_index) draft.comments
      × (r.draft_head_sha ≡ draft.head_sha)
      × (r.current_head_sha ≡ snap.head_sha)
unfolding reconcile_draft
reconcile_draft-report store human_id n r h =
    let (draft, d, h') = >>=-eq-ok (or_error (store.get_draft human_id n) no_draft) _ h in
    let (snap, s, h'') = >>=-eq-ok (or_error (store.get_snapshot n) no_snapshot) _ h' in
    let (all, results, head, current, _) = report_on_lem store draft snap n h'' in
    (
      draft,
      snap,
      or_error-eq-ok (store.get_draft human_id n) no_draft d,
      or_error-eq-ok (store.get_snapshot n) no_snapshot s,
      rw results (map-comment_of store snap draft.comments),
      all,
      head,
      current,
    )
