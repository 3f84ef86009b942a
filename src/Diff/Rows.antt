-- ===== src/Diff/Rows.antt =====
-- diff.ts, `buildRows`: a file model flattened into the viewer's rows. The source pushes rows on a
-- list; here each routine returns the rows that it pushes. A line's identity, the key of the span
-- map, is its place in the hunk. A gap's constant offset `delta` is kept as the old-file number of
-- the gap's first line: at a line n of the gap, n + delta is n + old_start - new_start.
pub mod Gaps
pub mod Hunks
use revu.Prelude.{
  ℕ, zero, suc, ◌+◌, ◌-◌, min, max, ltb, leb, ◌==◌, ◌&&◌, not, if◌then◌else◌, Bool, true, false,
  Option, none, some, List, [], ◌∷◌, ◌++◌, map, length, Text, is_empty,
}
use revu.Api.{FileStatus}
use revu.Anchor.{line_at, blob_content_to_lines}
use revu.ReconcilePlan.{or_blank}
use revu.Diff.{LineKind, context, add, del, DiffLine, DiffHunk, FileDiffModel, WordSpan}
use revu.Diff.Expand.{ExpandedRange, normalize_expanded}
use revu.Diff.Intraline.{Change, Spans, intraline_diff}

pub record GapInfo : Type 0 where
  pub old_start : ℕ
  pub old_end : ℕ
  pub new_start : ℕ
  pub new_end : ℕ
  pub count : ℕ

-- `L12`, `R12`, `O12`, `gap:12` and `hunk:0`; a missing number prints as `null`.
pub data RowId : Type 0 where
  unified_row split_row old_row : Option ℕ → RowId
  gap_row hunk_row : ℕ → RowId

pub data DiffRow : Type 0 where
  gap : RowId → GapInfo → DiffRow
  hunk_header : RowId → Text → DiffRow
  line : RowId → DiffLine → Option (List WordSpan) → DiffRow
  pair :
      RowId
      → Option DiffLine
      → Option DiffLine
      → Option (List WordSpan)
      → Option (List WordSpan)
      → DiffRow

pub record GapRegion : Type 0 where
  pub new_start : ℕ
  pub new_end : ℕ
  pub old_start : ℕ

-- n + region.delta
abbrev pub old_at : GapRegion → ℕ → ℕ
old_at region n = n + region.old_start - region.new_start

abbrev pub push_gap : GapRegion → ℕ → ℕ → DiffRow
push_gap region new_start new_end = gap (gap_row new_start) (record {
  old_start = old_at region new_start;
  old_end = old_at region new_end;
  new_start = new_start;
  new_end = new_end;
  count = new_end - new_start + 1;
})

abbrev pub synthesized : GapRegion → List Text → ℕ → DiffLine
synthesized region head_lines n = record {
  kind = context;
  old_line = some (old_at region n);
  new_line = some n;
  text = or_blank (line_at head_lines n);
}

abbrev pub context_row : Bool → DiffLine → DiffRow
context_row true l = pair (split_row l.new_line) (some l) (some l) none none
context_row false l = line (unified_row l.new_line) l none

-- for (let n = from; n <= to; n++), over `count` lines
pub expanded_rows : GapRegion → List Text → Bool → ℕ → ℕ → List DiffRow
expanded_rows region head_lines split zero n = []
expanded_rows region head_lines split (suc count) n =
    context_row split (synthesized region head_lines n)
    ∷ expanded_rows region head_lines split count (n + 1)

-- if (last >= first) pushGap(…)
abbrev pub gap_between : GapRegion → ℕ → ℕ → List DiffRow
gap_between region first last = if leb first last then push_gap region first last ∷ [] else []

-- The loop of `emitGapRegion` over the expanded ranges, from a cursor; `break` goes to the last gap.
pub gap_loop : GapRegion → List Text → Bool → ℕ → List ExpandedRange → List DiffRow
unfolding expanded_rows
gap_loop region head_lines split cursor [] = gap_between region cursor region.new_end
gap_loop region head_lines split cursor (r ∷ rs) =
    let from = max r.from_new cursor in
    let to = min r.to_new region.new_end in
    let skipped = gap_loop region head_lines split cursor rs in
    let shown =
      (if ltb cursor from then push_gap region cursor (from - 1) ∷ [] else [])
      ++ (expanded_rows region head_lines split (to + 1 - from) from
          ++ gap_loop region head_lines split (to + 1) rs) in
    if ltb r.to_new cursor
    then skipped
    else if ltb region.new_end r.from_new
    then gap_between region cursor region.new_end
    else if ltb to from
    then skipped
    else shown

pub emit_gap_region : GapRegion → List ExpandedRange → Option (List Text) → Bool → List DiffRow
unfolding gap_loop
emit_gap_region region expanded none split =
    if ltb region.new_end region.new_start
    then []
    else push_gap region region.new_start region.new_end ∷ []
emit_gap_region region expanded (some head_lines) split =
    if ltb region.new_end region.new_start
    then []
    else gap_loop region head_lines split region.new_start expanded
