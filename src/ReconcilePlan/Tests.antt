-- ===== src/ReconcilePlan/Tests.antt =====
-- A plan for a draft of one comment that is re-anchored by hand, and what the theorems say of it.
use revu.Prelude.{
  ◌+◌, ◌≡◌, refl, arith, not, none, some, List, [], ◌∷◌, ◌⊎◌, ◌↔◌, inl, Text, All, Contains, length,
  map, filter, text_eq, codes, ◌++◌, ◌≢◌,
}
use revu.Prelude.Results.{ok}
use revu.Api.{Side, PendingComment, ReviewEvent, ReviewDraft, clean}
use revu.Anchor.{classify_anchor, present, select_anchor_blob_sha, anchor_side_key}
use revu.ReconcilePlan.{
  reanchor, PlanInput, ReconcilePlan, capture_anchor, coherent_draft_head, lines_for,
  plan_reconcile_apply, compare_separator,
}
use revu.ReconcilePlan.Apply.{
  written, is_dropped, is_moved, plan_reconcile_apply_keeps, plan_reconcile_apply-reanchored,
  reanchored_clean,
}
use revu.ReconcilePlan.Returns.{Returns, IsResolved, plan_reconcile_apply-Returns_iff}
use revu.ReconcilePlan.Head.{coherent_draft_head_iff}

abbrev comment : PendingComment
comment = record {
  key = b'k' ∷ [];
  path = b'f' ∷ [];
  side = Side.right;
  start_side = none;
  line = 1;
  start_line = none;
  body = [];
  created_at = [];
  updated_at = [];
  anchor = record {
    line_text = b'z' ∷ [];
    context_before = [];
    context_after = [];
    start_line_text = none;
  };
}

abbrev draft : ReviewDraft
draft = record {
  human_id = [];
  pr_number = 7;
  head_sha = b'h' ∷ [];
  compare_key = codes "b...h";
  body = [];
  event = ReviewEvent.comment;
  comments = comment ∷ [];
  created_at = [];
  updated_at = [];
}

abbrev head_lines : List Text
head_lines = (b'a' ∷ []) ∷ (b'b' ∷ []) ∷ []

abbrev new_sha : Text
new_sha = b'n' ∷ []

-- The human takes the comment to line 2 of the head.
abbrev input : PlanInput Unit
input = record {
  draft = draft;
  results = clean comment ∷ [];
  decisions = λ key. some (reanchor 2);
  blob_index = some (λ path. some record { base = none; head = some (b's' ∷ []) });
  current_head_sha = b'n' ∷ [];
  current_compare_key = some (codes "b...n");
  resolve_lines = λ sha. ok (some head_lines);
  now = λ c. [];
}

abbrev moved_comment : PendingComment
moved_comment = record comment { line = 2; anchor = capture_anchor head_lines 2 none }

abbrev plan : ReconcilePlan
plan = record {
  updated = moved_comment ∷ [];
  reanchored = moved_comment ∷ [];
  removed_keys = [];
  kept = 1;
  dropped = 0;
  next_head = coherent_draft_head (b'n' ∷ []) (some (codes "b...n"));
}

plan_run : plan_reconcile_apply input ≡ ok plan
unfolding plan_reconcile_apply text_eq select_anchor_blob_sha anchor_side_key
plan_run = refl

lines_run : lines_for input moved_comment ≡ ok head_lines
unfolding lines_for select_anchor_blob_sha anchor_side_key
lines_run = refl

reanchored_clean_example :
    classify_anchor moved_comment (some head_lines) present ≡ clean moved_comment
reanchored_clean_example =
    reanchored_clean input plan moved_comment head_lines plan_run (inl refl) lines_run (omega arith)
      (omega arith)

plan_reconcile_apply_keeps_example :
    (map written plan.updated ≡ map written (filter (λ c. not (is_dropped input c)) draft.comments))
    × (plan.removed_keys ≡ map (λ c. c.key) (filter (is_dropped input) draft.comments))
    × (plan.kept ≡ length plan.updated)
    × (plan.dropped ≡ length plan.removed_keys)
    × (plan.kept + plan.dropped ≡ length draft.comments)
plan_reconcile_apply_keeps_example = plan_reconcile_apply_keeps input plan plan_run

plan_reconcile_apply-reanchored_example :
    (map written plan.reanchored ≡ map written (filter (is_moved input) draft.comments))
    × All (λ x. Contains x draft.comments ⊎ Contains x plan.reanchored) plan.updated
plan_reconcile_apply-reanchored_example = plan_reconcile_apply-reanchored input plan plan_run

plan_reconcile_apply-Returns_iff_example :
    Returns (plan_reconcile_apply input)
    ↔ All (IsResolved input) (filter (is_moved input) draft.comments)
plan_reconcile_apply-Returns_iff_example = plan_reconcile_apply-Returns_iff input

coherent_draft_head_iff_example :
    (coherent_draft_head new_sha (some (codes "b...n"))
      ≡ some record { head_sha = new_sha; compare_key = codes "b...n" })
    ↔ ((new_sha ≢ [])
        × (new_sha ≡ new_sha)
        × (some (codes "b...n") ≡ some (codes "b...n"))
        × ((merge_base : Text) × (codes "b...n" ≡ merge_base ++ (compare_separator ++ new_sha))))
coherent_draft_head_iff_example =
    coherent_draft_head_iff new_sha (some (codes "b...n"))
      record { head_sha = new_sha; compare_key = codes "b...n" }
