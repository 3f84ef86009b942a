-- ===== src/Reconcile.antt =====
-- packages/revud/src/direct/reconcile.ts: a draft's comments classified against the fresh snapshot.
-- The store is a record of the four reads; a thrown `ApiError` is an error value.
pub mod Report
pub mod Commits
mod Tests
use revu.Prelude.{
  ℕ, zero, suc, ◌+◌, Bool, true, false, not, if◌then◌else◌, Option, none, some, List, [], ◌∷◌, map,
  length, drop, any, Text, text_eq, ltb, ◌&&◌,
}
use mathlib.Core.Option
use revu.Prelude.Results.{Result, ok, err, ◌>>=◌}
use revu.Api.{
  PendingComment, ReviewDraft, BlobIndex, CommitInfo, FileBlob, SnapshotImmutable, ReconcileReport,
  AnchorResult,
}
use revu.Anchor.{select_anchor_blob_sha, blob_content_to_lines, classify_pending_comment}

pub record ReconcileStore : Type 0 where
  pub get_draft : Text → ℕ → Option ReviewDraft
  pub get_snapshot : ℕ → Option SnapshotImmutable
  pub get_blob : Text → Option FileBlob
  pub has_blob : Text → Bool

-- The three `not_found` errors; the last with the number of objects.
pub data ReconcileError : Type 0 where
  no_draft no_snapshot : ReconcileError
  objects_missing : ℕ → ReconcileError

abbrev pub add_missing : Text → List Text → List Text
add_missing sha missing = if any (text_eq sha) missing then missing else sha ∷ missing

module _ (store : ReconcileStore) where
  -- sha !== null && !store.hasBlob(sha) adds the SHA to the set
  abbrev pub note_missing : Option Text → List Text → List Text
  note_missing none missing = missing
  note_missing (some sha) missing = if store.has_blob sha then missing else add_missing sha missing

  pub missing_objects : BlobIndex → List PendingComment → List Text → List Text
  missing_objects index [] missing = missing
  missing_objects index (c ∷ cs) missing =
      missing_objects index cs (note_missing (select_anchor_blob_sha (index c.path) c.side) missing)

  abbrev readable_lines : Option FileBlob → Option (List Text)
  readable_lines none = none
  readable_lines (some blob) =
      if blob.binary then none else some (blob_content_to_lines blob.content)

  pub blob_lines : Text → Option (List Text)
  blob_lines sha = readable_lines (store.get_blob sha)

-- commits.findIndex((c) => c.sha === headSha)
pub find_commit : Text → List CommitInfo → Option ℕ
find_commit head_sha [] = none
find_commit head_sha (c ∷ cs) =
    let rest = Option.map suc (find_commit head_sha cs) in
    if text_eq c.sha head_sha then some 0 else rest

abbrev after_index : List CommitInfo → Option ℕ → List CommitInfo
after_index commits none = commits
after_index commits (some i) = drop (i + 1) commits

pub new_commits_since : Text → List CommitInfo → List CommitInfo
unfolding find_commit
new_commits_since head_sha commits = after_index commits (find_commit head_sha commits)

abbrev or_error {ℓ} : {A : Type ℓ} → Option A → ReconcileError → Result ReconcileError A
or_error none e = err e
or_error (some a) e = ok a

pub classify_all : ReconcileStore → SnapshotImmutable → List PendingComment → List AnchorResult
classify_all store snap comments =
    map (λ c. classify_pending_comment c snap.files snap.blob_index (blob_lines store)) comments

-- The report that is returned once every object is there.
abbrev pub report_of : ReconcileStore → ReviewDraft → SnapshotImmutable → ℕ → ReconcileReport
report_of store draft snap pr_number = record {
  pr_number = pr_number;
  draft_head_sha = draft.head_sha;
  current_head_sha = snap.head_sha;
  new_commits = new_commits_since draft.head_sha snap.commits;
  results = classify_all store snap draft.comments;
}

pub report_on :
    ReconcileStore → ReviewDraft → SnapshotImmutable → ℕ → Result ReconcileError ReconcileReport
unfolding missing_objects classify_all new_commits_since
report_on store draft snap pr_number =
    let missing = missing_objects store snap.blob_index draft.comments [] in
    if ltb 0 (length missing)
    then err (objects_missing (length missing))
    else ok (report_of store draft snap pr_number)

pub reconcile_draft : ReconcileStore → Text → ℕ → Result ReconcileError ReconcileReport
unfolding report_on
reconcile_draft store human_id pr_number = do
  draft ← or_error (store.get_draft human_id pr_number) no_draft
  snap ← or_error (store.get_snapshot pr_number) no_snapshot
  report_on store draft snap pr_number
