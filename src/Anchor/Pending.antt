-- ===== src/Anchor/Pending.antt =====
-- What `classifyPendingComment` guarantees of every comment, and which presence decides its fate.
use revu.Prelude.{◌≡◌, refl, inl, inr, Option, none, some, List, [], ◌∷◌, Text, Bool-cases}
use revu.Api.{PendingComment, PullFile, BlobIndex, AnchorResult, clean, drifted, lost}
use revu.Anchor.{
  FilePresence, present, deleted, renamed, added, Best, drift_search, drift_result, stays_clean,
  classify_anchor, classify_pending_comment,
}

abbrev pub comment_of : AnchorResult → PendingComment
comment_of (clean c) = c
comment_of (drifted c _ _ _ _) = c
comment_of (lost c _) = c

comment_of-drift_result :
    (c : PendingComment) (lines : List Text) (o : Option Best)
    → comment_of (drift_result c lines o) ≡ c
unfolding drift_result
comment_of-drift_result c lines none = refl
comment_of-drift_result c lines (some b) = refl

comment_of-classify_anchor :
    (c : PendingComment) (lines : Option (List Text)) (p : FilePresence)
    → comment_of (classify_anchor c lines p) ≡ c
unfolding classify_anchor
comment_of-classify_anchor c lines deleted = refl
comment_of-classify_anchor c lines renamed = refl
comment_of-classify_anchor c lines added = refl
comment_of-classify_anchor c none present = refl
comment_of-classify_anchor c (some []) present = refl
comment_of-classify_anchor c (some (l ∷ ls)) present = elim (Bool-cases (stays_clean c (l ∷ ls))) [
  | inl e ↦ rw e
  | inr e ↦ rw e (comment_of-drift_result c (l ∷ ls) (drift_search c (l ∷ ls)))
]

-- Whatever the classification, its comment is the pending comment itself.
pub comment_of-classify_pending_comment :
    (c : PendingComment) (files : List PullFile) (index : BlobIndex)
    (resolve : Text → Option (List Text))
    → comment_of (classify_pending_comment c files index resolve) ≡ c
unfolding classify_pending_comment
comment_of-classify_pending_comment c files index resolve = comment_of-classify_anchor c _ _
