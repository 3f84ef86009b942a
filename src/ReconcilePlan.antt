-- ===== src/ReconcilePlan.antt =====
-- packages/app/src/components/review/reconcile-plan.ts: what applying the reconcile dialog's
-- decisions does to a draft, as a value. The blob resolver and the clock (`new Date()`) are
-- parameters; a resolver that rejects makes the whole plan an error.
pub mod Capture
pub mod Apply
pub mod Returns
pub mod Head
mod Tests
use revu.Prelude.{
  ℕ, ◌+◌, ◌-◌, max, Bool, true, false, not, if◌then◌else◌, Option, none, some, List, [], ◌∷◌, ◌++◌,
  length, slice, find, Text, text_eq, is_empty, ends_with, codes,
}
use revu.Prelude.Results.{Result, ok, err, ◌>>=◌}
use revu.Api.{Anchor, PendingComment, ReviewDraft, BlobIndex, AnchorResult, clean, drifted, lost}
use revu.Anchor.Pending.{comment_of}
use revu.Anchor.{line_at, select_anchor_blob_sha}

pub data Decision : Type 0 where
  keep accept drop : Decision
  reanchor : ℕ → Decision

-- state/drafts.ts
pub record DraftHead : Type 0 where
  pub head_sha : Text
  pub compare_key : Text

abbrev pub compare_separator : Text
compare_separator = codes "..."

abbrev pub pair_if : Bool → Text → Text → Option DraftHead
pair_if true head_sha key = some (record { head_sha = head_sha; compare_key = key })
pair_if false head_sha key = none

pub coherent_draft_head : Text → Option Text → Option DraftHead
coherent_draft_head head_sha none = none
coherent_draft_head head_sha (some key) =
    if is_empty head_sha
    then none
    else if is_empty key
    then none
    else pair_if (ends_with key (compare_separator ++ head_sha)) head_sha key

-- x ?? ''
abbrev pub or_blank : Option Text → Text
or_blank none = []
or_blank (some t) = t

abbrev captured_start : List Text → Option ℕ → Option Text
captured_start lines none = none
captured_start lines (some n) = some (or_blank (line_at lines n))

pub capture_anchor : List Text → ℕ → Option ℕ → Anchor
capture_anchor lines line start_line = record {
  line_text = or_blank (line_at lines line);
  context_before = slice (line - 4) (line - 1) lines;
  context_after = slice line (line + 3) lines;
  start_line_text = captured_start lines start_line;
}

pub record PlanInput (E : Type 0) : Type 0 where
  pub draft : ReviewDraft
  pub results : List AnchorResult
  pub decisions : Text → Option Decision
  pub blob_index : Option BlobIndex
  pub current_head_sha : Text
  pub current_compare_key : Option Text
  pub resolve_lines : Text → Result E (Option (List Text))
  pub now : PendingComment → Text

pub record ReconcilePlan : Type 0 where
  pub updated : List PendingComment
  pub reanchored : List PendingComment
  pub removed_keys : List Text
  pub kept : ℕ
  pub dropped : ℕ
  pub next_head : Option DraftHead

-- results.find((r) => r.comment.key === comment.key)
pub result_for : List AnchorResult → PendingComment → Option AnchorResult
result_for results c = find (λ r. text_eq (comment_of r).key c.key) results

-- Math.max(1, comment.start_line + (line - comment.line)), null for a single line
abbrev pub shifted_start : PendingComment → Option ℕ → ℕ → Option ℕ
shifted_start c none line = none
shifted_start c (some start) line = some (max 1 (start + line - c.line))

-- The new line and start line of a decision that moves the comment.
abbrev pub accepted_line : PendingComment → AnchorResult → ℕ
accepted_line c (drifted _ new_line _ _ _) = new_line
accepted_line c _ = c.line

abbrev pub accepted_start : PendingComment → AnchorResult → Option ℕ
accepted_start c (drifted _ _ new_start _ _) = new_start
accepted_start c _ = c.start_line

-- What one round of the loop adds to the lists of the plan.
pub data Fate : Type 0 where
  carried rewritten : PendingComment → Fate
  removed : Text → Fate

abbrev pub entry_of : Option BlobIndex → Text → Option revu.Api.BlobEntry
entry_of none path = none
entry_of (some index) path = index path

abbrev pub lines_or_none : Option (List Text) → List Text
lines_or_none none = []
lines_or_none (some lines) = lines

module _ {E : Type 0} (input : PlanInput E) where
  -- sha !== null ? ((await resolveLines(sha)) ?? []) : []
  abbrev pub fetch_lines : Option Text → Result E (List Text)
  fetch_lines none = ok []
  fetch_lines (some sha) = do found ← input.resolve_lines sha; ok (lines_or_none found)

  -- The lines that a moved comment is captured from.
  pub lines_for : PendingComment → Result E (List Text)
  lines_for c = fetch_lines (select_anchor_blob_sha (entry_of input.blob_index c.path) c.side)

  abbrev pub moved : PendingComment → List Text → ℕ → Option ℕ → PendingComment
  moved c lines line start = record c {
    line = line;
    start_line = start;
    anchor = capture_anchor lines line start;
    updated_at = input.now c;
  }

  pub move_to : PendingComment → ℕ → Option ℕ → Result E Fate
  unfolding lines_for
  move_to c line start = do lines ← lines_for c; ok (rewritten (moved c lines line start))

  pub apply_decision : PendingComment → Option Decision → Option AnchorResult → Result E Fate
  unfolding move_to
  apply_decision c none result = ok (carried c)
  apply_decision c (some decision) none = ok (carried c)
  apply_decision c (some drop) (some result) = ok (removed c.key)
  apply_decision c (some keep) (some result) = ok (carried c)
  apply_decision c (some accept) (some result) =
      move_to c (accepted_line c result) (accepted_start c result)
  apply_decision c (some (reanchor line)) (some result) =
      move_to c line (shifted_start c c.start_line line)

  -- The loop, with the three lists that it builds.
  pub record Lists : Type 0 where
    pub updated : List PendingComment
    pub reanchored : List PendingComment
    pub removed_keys : List Text

  abbrev pub add_fate : Fate → Lists → Lists
  add_fate (carried c) l = record l { updated = c ∷ l.updated }
  add_fate (rewritten c) l = record l { updated = c ∷ l.updated; reanchored = c ∷ l.reanchored }
  add_fate (removed key) l = record l { removed_keys = key ∷ l.removed_keys }

  pub plan_comments : List PendingComment → Result E Lists
  plan_comments [] = ok (record { updated = []; reanchored = []; removed_keys = [] })
  plan_comments (c ∷ cs) = do
    fate ← apply_decision c (input.decisions c.key) (result_for input.results c)
    rest ← plan_comments cs
    ok (add_fate fate rest)

  pub plan_reconcile_apply : Result E ReconcilePlan
  unfolding plan_comments apply_decision result_for
  plan_reconcile_apply = do
    l ← plan_comments input.draft.comments
    ok (record {
      updated = l.updated;
      reanchored = l.reanchored;
      removed_keys = l.removed_keys;
      kept = length l.updated;
      dropped = length l.removed_keys;
      next_head = coherent_draft_head input.current_head_sha input.current_compare_key;
    })
