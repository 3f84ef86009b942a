-- ===== src/Diff/Rows/Hunks.antt =====
-- diff.ts: the rows of a hunk's lines in both modes, and `buildRows` itself.
pub mod Coverage
use revu.Prelude.{
  ℕ, zero, suc, ◌+◌, ◌-◌, ltb, leb, ◌==◌, ◌&&◌, ◌||◌, not, if◌then◌else◌, Bool, true, false, Option,
  none, some, List, [], ◌∷◌, ◌++◌, map, length, Text, is_empty,
}
use mathlib.Core.Option
use revu.Api.{FileStatus}
use revu.Anchor.{blob_content_to_lines}
use revu.Diff.{LineKind, context, add, del, DiffLine, DiffHunk, FileDiffModel, WordSpan}
use revu.Diff.Expand.{ExpandedRange, normalize_expanded}
use revu.Diff.Intraline.{Change, Spans, intraline_diff}
use revu.Diff.Rows.{
  DiffRow, line, pair, unified_row, split_row, old_row, hunk_row, GapRegion, context_row,
  emit_gap_region,
}
use revu.Diff.Rows

-- A line with its place in the hunk, and the span map with those places as keys.
abbrev pub Placed : Type 0
Placed = ℕ × DiffLine

abbrev pub SpanMap : Type 0
SpanMap = List (ℕ × Option (List WordSpan))

pub place : ℕ → List DiffLine → List Placed
place i [] = []
place i (l ∷ ls) = (i, l) ∷ place (suc i) ls

-- spans.get(line) ?? null
pub span_of : SpanMap → ℕ → Option (List WordSpan)
span_of [] i = none
span_of ((j, s) ∷ m) i = if j == i then s else span_of m i

-- One of three, by the kind of a line.
abbrev pub by_kind {ℓ} : {A : Type ℓ} → LineKind → A → A → A → A
by_kind context c d a = c
by_kind del c d a = d
by_kind add c d a = a

module _ (diff_words : Text → Text → List Change) where
  -- `flush`: the k-th deleted line pairs with the k-th added one.
  pub pair_spans : List Placed → List Placed → SpanMap
  pair_spans [] adds = []
  pair_spans (d ∷ dels) [] = []
  pair_spans ((i, d) ∷ dels) ((j, a) ∷ adds) =
      let result = intraline_diff diff_words d.text a.text in
      (i, Option.map (λ (s : Spans). s.0) result)
      ∷ (j, Option.map (λ (s : Spans). s.1) result)
      ∷ pair_spans dels adds

  -- The loop of `computeIntralineSpans`, with the run of deleted and added lines so far.
  pub spans_loop : List Placed → List Placed → List Placed → SpanMap
  unfolding pair_spans
  spans_loop dels adds [] = pair_spans dels adds
  spans_loop dels adds ((i, l) ∷ ls) =
      let flushed = pair_spans dels adds ++ spans_loop [] [] ls in
      let deleted = spans_loop (dels ++ (i, l) ∷ []) adds ls in
      let added = spans_loop dels (adds ++ (i, l) ∷ []) ls in by_kind l.kind flushed deleted added

  pub compute_intraline_spans : List DiffLine → SpanMap
  unfolding spans_loop
  compute_intraline_spans lines = spans_loop [] [] (place 0 lines)

-- `L…` for a line with a new-file number, `O…` for another.
abbrev line_id : DiffLine → Rows.RowId
line_id l = elim l.new_line [ none ↦ old_row l.old_line | some n ↦ unified_row (some n) ]

pub emit_unified_lines : List Placed → SpanMap → List DiffRow
unfolding span_of
emit_unified_lines [] spans = []
emit_unified_lines ((i, l) ∷ ls) spans =
    line (line_id l) l (span_of spans i) ∷ emit_unified_lines ls spans

-- `flush`: rows of a run, the shorter side null.
pub pair_rows : SpanMap → List Placed → List Placed → List DiffRow
pair_rows spans [] [] = []
pair_rows spans [] ((j, a) ∷ adds) =
    pair (split_row a.new_line) none (some a) none (span_of spans j) ∷ pair_rows spans [] adds
pair_rows spans ((i, d) ∷ dels) [] =
    pair (old_row d.old_line) (some d) none (span_of spans i) none ∷ pair_rows spans dels []
pair_rows spans ((i, d) ∷ dels) ((j, a) ∷ adds) =
    pair (split_row a.new_line) (some d) (some a) (span_of spans i) (span_of spans j)
    ∷ pair_rows spans dels adds

-- The loop of `emitSplitLines`.
pub split_loop : SpanMap → List Placed → List Placed → List Placed → List DiffRow
unfolding pair_rows
split_loop spans dels adds [] = pair_rows spans dels adds
split_loop spans dels adds ((i, l) ∷ ls) =
    let flushed = pair_rows spans dels adds ++ (context_row true l ∷ split_loop spans [] [] ls) in
    let deleted = split_loop spans (dels ++ (i, l) ∷ []) adds ls in
    let added = split_loop spans dels (adds ++ (i, l) ∷ []) ls in
    by_kind l.kind flushed deleted added

pub emit_split_lines : List Placed → SpanMap → List DiffRow
unfolding split_loop
emit_split_lines lines spans = split_loop spans [] [] lines

pub emit_lines : Bool → List Placed → SpanMap → List DiffRow
unfolding emit_split_lines emit_unified_lines
emit_lines true lines spans = emit_split_lines lines spans
emit_lines false lines spans = emit_unified_lines lines spans

-- A side with no lines starts at the line before the change.
abbrev pub gap_end : DiffHunk → ℕ
gap_end h = if ltb 0 h.new_lines then h.new_start - 1 else h.new_start

abbrev pub next_line : ℕ → ℕ → ℕ
next_line start lines = if ltb 0 lines then start + lines else start + 1

-- What `buildRows` computes before the hunks: the head file, the expansion and the mode.
pub record View : Type 0 where
  pub has_gaps : Bool
  pub head_lines : Option (List Text)
  pub expanded : List ExpandedRange
  pub split : Bool

abbrev pub region_rows : View → ℕ → ℕ → ℕ → List DiffRow
region_rows v old_next new_next new_end =
    if v.has_gaps
    then emit_gap_region (record { new_start = new_next; new_end = new_end; old_start = old_next })
        v.expanded v.head_lines v.split
    else []

abbrev pub is_removed : FileStatus → Bool
is_removed FileStatus.removed = true
is_removed _ = false

abbrev pub is_added : FileStatus → Bool
is_added FileStatus.added = true
is_added _ = false

-- The gap after the last hunk, when the head file is known to go on.
abbrev pub trailing_rows : View → FileStatus → ℕ → ℕ → Option (List Text) → List DiffRow
trailing_rows v status old_next new_next none = []
trailing_rows v status old_next new_next (some head) =
    if not (is_removed status) && leb new_next (length head)
    then region_rows v old_next new_next (length head)
    else []

module _ (diff_words : Text → Text → List Change) where
  pub hunk_rows : View → FileStatus → ℕ → ℕ → ℕ → List DiffHunk → List DiffRow
  unfolding emit_lines compute_intraline_spans
  hunk_rows v status i old_next new_next [] = trailing_rows v status old_next new_next v.head_lines
  hunk_rows v status i old_next new_next (h ∷ hs) =
      region_rows v old_next new_next (gap_end h)
      ++ (Rows.hunk_header (hunk_row i) h.header
          ∷ (emit_lines v.split (place 0 h.lines) (compute_intraline_spans diff_words h.lines)
              ++ hunk_rows v status (suc i) (next_line h.old_start h.old_lines)
                  (next_line h.new_start h.new_lines) hs))

  -- With no hunk at all the whole file is one gap.
  abbrev pub file_rows : View → FileStatus → List DiffHunk → List DiffRow
  file_rows v status [] = trailing_rows v status 1 1 v.head_lines
  file_rows v status (h ∷ hs) = hunk_rows v status 0 1 1 (h ∷ hs)

  -- The blob of the base side is accepted by the source and not read.
  pub build_rows : FileDiffModel → Bool → List ExpandedRange → Option Text → List DiffRow
  unfolding hunk_rows
  build_rows model split expanded head_blob_content =
      if model.binary || model.too_large
      then []
      else file_rows
          (record {
            has_gaps = not (is_added model.status);
            head_lines = Option.map blob_content_to_lines head_blob_content;
            expanded = normalize_expanded expanded;
            split = split;
          })
          model.status model.hunks
