-- ===== src/Reconcile/Tests.antt =====
-- A reconcile of a draft with one comment, and what the theorems say of it.
use revu.Prelude.{◌≡◌, refl, true, false, none, some, [], ◌∷◌, ◌↔◌, All, map}
use revu.Prelude.Results.{ok}
use revu.Api.{
  Side, PendingComment, ReviewEvent, ReviewDraft, CommitInfo, SnapshotImmutable, ReconcileReport,
}
use revu.Anchor.{select_anchor_blob_sha, anchor_side_key}
use revu.Anchor.Pending.{comment_of}
use revu.Reconcile.{ReconcileStore, report_of, reconcile_draft}
use revu.Reconcile.Report.{HasObject, reconcile_draft-eq-ok_iff, reconcile_draft-report}

abbrev comment : PendingComment
comment = record {
  key = b'k' ∷ [];
  path = b'f' ∷ [];
  side = Side.right;
  start_side = none;
  line = 1;
  start_line = none;
  body = [];
  created_at = [];
  updated_at = [];
  anchor = record {
    line_text = b'z' ∷ [];
    context_before = [];
    context_after = [];
    start_line_text = none;
  };
}

abbrev draft : ReviewDraft
draft = record {
  human_id = [];
  pr_number = 7;
  head_sha = b'h' ∷ [];
  compare_key = [];
  body = [];
  event = ReviewEvent.comment;
  comments = comment ∷ [];
  created_at = [];
  updated_at = [];
}

abbrev first_commit : CommitInfo
first_commit = record { sha = b'h' ∷ []; message = [] }

abbrev second_commit : CommitInfo
second_commit = record { sha = b'n' ∷ []; message = [] }

abbrev snapshot : SnapshotImmutable
snapshot = record {
  head_sha = b'n' ∷ [];
  files = [];
  blob_index = λ path. some record { base = none; head = some (b's' ∷ []) };
  commits = first_commit ∷ second_commit ∷ [];
}

abbrev store : ReconcileStore
store = record {
  get_draft = λ human n. some draft;
  get_snapshot = λ n. some snapshot;
  get_blob =
      λ sha. some record { sha = sha; path = []; content = b'a' ∷ []; size = 1; binary = false };
  has_blob = λ sha. true;
}

reconcile_run : reconcile_draft store [] 7 ≡ ok (report_of store draft snapshot 7)
unfolding reconcile_draft select_anchor_blob_sha anchor_side_key
reconcile_run = refl

reconcile_draft-report_example :
    (d : ReviewDraft) × (snap : SnapshotImmutable) × (store.get_draft [] 7 ≡ some d)
    × (store.get_snapshot 7 ≡ some snap)
    × (map comment_of (report_of store draft snapshot 7).results ≡ d.comments)
    × All (HasObject store snap.blob_index) d.comments
    × ((report_of store draft snapshot 7).draft_head_sha ≡ d.head_sha)
    × ((report_of store draft snapshot 7).current_head_sha ≡ snap.head_sha)
reconcile_draft-report_example =
    reconcile_draft-report store [] 7 (report_of store draft snapshot 7) reconcile_run

reconcile_draft-eq-ok_iff_example :
    ((r : ReconcileReport) × (reconcile_draft store [] 7 ≡ ok r))
    ↔ All (HasObject store snapshot.blob_index) draft.comments
reconcile_draft-eq-ok_iff_example = reconcile_draft-eq-ok_iff store [] 7 draft snapshot refl refl
