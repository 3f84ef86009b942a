-- ===== src/Diff.antt =====
-- packages/app/src/lib/diff.ts: the diff engine's model types. Line numbers are from 1.
pub mod Parse
pub mod Expand
pub mod Intraline
pub mod Rows
mod Tests
use revu.Prelude.{ℕ, Bool, Option, List, Text}
use revu.Api.{FileStatus}

pub data LineKind : Type 0 where
  context add del : LineKind

pub record DiffLine : Type 0 where
  pub kind : LineKind
  pub old_line : Option ℕ
  pub new_line : Option ℕ
  pub text : Text

pub record DiffHunk : Type 0 where
  pub old_start : ℕ
  pub old_lines : ℕ
  pub new_start : ℕ
  pub new_lines : ℕ
  pub header : Text
  pub lines : List DiffLine

pub record FileDiffModel : Type 0 where
  pub path : Text
  pub previous_path : Option Text
  pub status : FileStatus
  pub binary : Bool
  pub too_large : Bool
  pub hunks : List DiffHunk
  pub additions : ℕ
  pub deletions : ℕ

-- Half-open: [start, end).
pub record WordSpan : Type 0 where
  pub start : ℕ
  pub end : ℕ
