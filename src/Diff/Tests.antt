-- ===== src/Diff/Tests.antt =====
-- What the theorems on the diff engine say of a small file.
use revu.Prelude.{
  ℕ, ◌+◌, ◌-◌, ◌≡◌, refl, arith, false, none, some, List, [], ◌∷◌, Text, All, codes, length, map,
  split_on, length,
}
use revu.Api.{FileStatus}
use revu.Anchor.{blob_content_to_lines, pop_last_empty}
use revu.Diff.{LineKind, DiffHunk, FileDiffModel}
use revu.Diff.Parse.{parse_hunks}
use revu.Diff.Parse.Numbering.{IsNumberedHunk, parse_hunks-IsNumbered}
use revu.Diff.Expand.{ExpandedRange, upright, normalize_expanded}
use revu.Diff.Expand.Merging.{IsSeparated, covers, normalize_expanded_lem}
use revu.Diff.Intraline.{Change, ChangeKind}
use revu.Diff.Rows.{emit_gap_region}
use revu.Diff.Rows.Gaps.{count_up, rows_numbers, emit_gap_region_numbers}
use revu.Diff.Rows.Hunks.{build_rows}
use revu.Diff.Rows.Hunks.Coverage.{seq, shown, shown-build_rows}

-- The head has three lines, the second of which was added.
abbrev content : Text
content = b'a' ∷ 10 ∷ b'b' ∷ 10 ∷ b'c' ∷ []

abbrev hunk : DiffHunk
hunk = record {
  old_start = 1;
  old_lines = 1;
  new_start = 1;
  new_lines = 2;
  header = [];
  lines =
      record { kind = LineKind.context; old_line = some 1; new_line = some 1; text = b'a' ∷ [] }
      ∷ record { kind = LineKind.add; old_line = none; new_line = some 2; text = b'b' ∷ [] }
      ∷ [];
}

abbrev file : FileDiffModel
file = record {
  path = b'f' ∷ [];
  previous_path = none;
  status = FileStatus.modified;
  binary = false;
  too_large = false;
  hunks = hunk ∷ [];
  additions = 1;
  deletions = 0;
}

abbrev ranges : List ExpandedRange
ranges = record { from_new = 9; to_new = 7 } ∷ record { from_new = 2; to_new = 3 } ∷ []

-- A word diff that takes the whole line out and the new one in.
abbrev whole : Text → Text → List Change
whole del_text add_text =
    record { kind = ChangeKind.removed; value = del_text }
    ∷ record { kind = ChangeKind.added; value = add_text }
    ∷ []

three_lines : length (blob_content_to_lines content) ≡ 3
unfolding blob_content_to_lines pop_last_empty split_on
three_lines = refl

shown-build_rows_example :
    shown (build_rows whole file false ranges (some content))
    ≡ seq (length (blob_content_to_lines content)) 1
shown-build_rows_example =
    shown-build_rows whole file false ranges content refl refl refl refl
      (((refl, refl), ((refl, refl), tt)), refl, omega arith, omega (arith, three_lines))

emit_gap_region_numbers_example :
    rows_numbers
      (emit_gap_region record { new_start = 4; new_end = 12; old_start = 3 } ranges none false)
    ≡ count_up (12 + 1 - 4) 4 3
emit_gap_region_numbers_example =
    emit_gap_region_numbers record { new_start = 4; new_end = 12; old_start = 3 } ranges none false

normalize_expanded_lem_example :
    IsSeparated (normalize_expanded ranges)
    × ((n : ℕ) → covers n (normalize_expanded ranges) ≡ covers n (map upright ranges))
normalize_expanded_lem_example = normalize_expanded_lem ranges

parse_hunks-IsNumbered_example : All IsNumberedHunk (parse_hunks (codes "@@ -1 +1,2 @@\n a\n+b"))
parse_hunks-IsNumbered_example = parse_hunks-IsNumbered (codes "@@ -1 +1,2 @@\n a\n+b")
