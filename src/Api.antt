-- ===== src/Api.antt =====
-- packages/shared/src/api/types.ts: the contract's documents that the other components read.
-- Texts are lists of UTF-16 code units. Line numbers are natural numbers, from 1.
-- An absent field and a `null` one are both `none` where the code does not tell them apart.
use revu.Prelude.{ℕ, Bool, Option, List, Text}
use revu.Prelude.Int.{ℤ}

-- 'LEFT' | 'RIGHT'
pub data Side : Type 0 where
  left right : Side

-- PendingComment['anchor']
pub record Anchor : Type 0 where
  pub line_text : Text
  pub context_before : List Text
  pub context_after : List Text
  pub start_line_text : Option Text

pub record PendingComment : Type 0 where
  pub key : Text
  pub path : Text
  pub side : Side
  pub start_side : Option Side
  pub line : ℕ
  pub start_line : Option ℕ
  pub body : Text
  pub created_at : Text
  pub updated_at : Text
  pub anchor : Anchor

-- ReviewDraft['event']
pub data ReviewEvent : Type 0 where
  comment approve request_changes : ReviewEvent

pub record ReviewDraft : Type 0 where
  pub human_id : Text
  pub pr_number : ℕ
  pub head_sha : Text
  pub compare_key : Text
  pub body : Text
  pub event : ReviewEvent
  pub comments : List PendingComment
  pub created_at : Text
  pub updated_at : Text

-- PullFile['status']
pub data FileStatus : Type 0 where
  added modified removed renamed : FileStatus

pub record PullFile : Type 0 where
  pub sha : Text
  pub filename : Text
  pub previous_filename : Option Text
  pub status : FileStatus
  pub additions : ℕ
  pub deletions : ℕ
  pub changes : ℕ
  pub patch : Option Text

-- The two blob SHAs of one path of a compare.
pub record BlobEntry : Type 0 where
  pub base : Option Text
  pub head : Option Text

abbrev pub BlobIndex : Type 0
BlobIndex = Text → Option BlobEntry

pub data LostReason : Type 0 where
  line_deleted file_deleted file_renamed file_added : LostReason

-- The last field of `drifted` is `startLineUncertain`.
pub data AnchorResult : Type 0 where
  clean : PendingComment → AnchorResult
  drifted : PendingComment → ℕ → Option ℕ → ℤ → Bool → AnchorResult
  lost : PendingComment → LostReason → AnchorResult

-- The fields of a commit that the models read.
pub record CommitInfo : Type 0 where
  pub sha : Text
  pub message : Text

pub record FileBlob : Type 0 where
  pub sha : Text
  pub path : Text
  pub content : Text
  pub size : ℕ
  pub binary : Bool

-- Snapshot['immutable'], in the fields that reconcile reads.
pub record SnapshotImmutable : Type 0 where
  pub head_sha : Text
  pub files : List PullFile
  pub blob_index : BlobIndex
  pub commits : List CommitInfo

pub record ReconcileReport : Type 0 where
  pub pr_number : ℕ
  pub draft_head_sha : Text
  pub current_head_sha : Text
  pub new_commits : List CommitInfo
  pub results : List AnchorResult
