-- ===== src/Diff/Parse.antt =====
-- diff.ts, `parsePatch`: a file's unified diff into hunks of numbered lines. `Number(…)` of a run of
-- digits is exact in the model.
pub mod Numbering
use revu.Prelude.{
  ℕ, zero, suc, ◌+◌, ◌-◌, ◌*◌, leb, ◌==◌, if◌then◌else◌, Bool, true, false, ◌&&◌, Option, none,
  some, List, [], ◌∷◌, ◌++◌, any, Text, codes, text_eq, split_on, is_empty, starts_with,
  last_index_of, to_lower, length, drop,
}
use revu.Api.{PullFile, FileStatus}
use revu.Anchor.{pop_last_empty}
use revu.Diff.{LineKind, context, add, del, DiffLine, DiffHunk, FileDiffModel}

abbrev binary_extensions : List Text
binary_extensions =
    codes "png"
    ∷ codes "jpg"
    ∷ codes "gif"
    ∷ codes "woff2"
    ∷ codes "ico"
    ∷ codes "pdf"
    ∷ codes "zip"
    ∷ []

abbrev extension_of : Text → Option ℕ → Bool
extension_of path none = false
extension_of path (some dot) =
    if dot == length path - 1
    then false
    else any (text_eq (to_lower (drop (dot + 1) path))) binary_extensions

pub has_binary_extension : Text → Bool
has_binary_extension path = extension_of path (last_index_of b'.' path)

abbrev is_digit : ℕ → Bool
is_digit c = leb b'0' c && leb c b'9'

-- The rest of a text after a literal, if it begins with it.
abbrev after : Text → Text → Option Text
after literal s = if starts_with s literal then some (drop (length literal) s) else none

-- \d*, with the number read so far.
pub digits_from : ℕ → Text → ℕ × Text
digits_from n [] = (n, [])
digits_from n (c ∷ s) =
    let more = digits_from (n * 10 + (c - b'0')) s in if is_digit c then more else (n, c ∷ s)

-- (\d+)
pub number : Text → Option (ℕ × Text)
unfolding digits_from
number [] = none
number (c ∷ s) = if is_digit c then some (digits_from 0 (c ∷ s)) else none

infixl 5 ◌>>=◌
abbrev ◌>>=◌ {ℓ κ} : {A : Type ℓ} {B : Type κ} → Option A → (A → Option B) → Option B
none >>= f = none
some a >>= f = f a

-- (?:,(\d+))?, where an omitted count is 1; a comma with no number after it matches nothing.
pub count : Text → ℕ × Text
unfolding number
count [] = (1, [])
count (c ∷ s) = elim (if c == b',' then number s else none) [
  | none ↦ (1, c ∷ s)
  | some found ↦ found
]

-- The match of HUNK_HEADER at the head of a line.
pub hunk_header : Text → Option DiffHunk
unfolding number count
hunk_header raw = do
  s ← after (codes "@@ -") raw
  (old_start, s1) ← number s
  let (old_lines, s2) = count s1
  s3 ← after (codes " +") s2
  (new_start, s4) ← number s3
  let (new_lines, s5) = count s4
  s6 ← after (codes " @@") s5
  some (record {
    old_start = old_start;
    old_lines = old_lines;
    new_start = new_start;
    new_lines = new_lines;
    header = raw;
    lines = [];
  })

-- The variables of the loop of `parseHunks`: the hunks before the current one, and the cursors.
pub record Cursor : Type 0 where
  pub closed : List DiffHunk
  pub current : DiffHunk
  pub old_cursor : ℕ
  pub new_cursor : ℕ

abbrev push_line : Cursor → DiffLine → ℕ → ℕ → Cursor
push_line s l old new = record s {
  current = record s.current { lines = s.current.lines ++ l ∷ [] };
  old_cursor = old;
  new_cursor = new;
}

abbrev add_line : Cursor → Text → Cursor
add_line s text =
    push_line s (record { kind = add; old_line = none; new_line = some s.new_cursor; text = text })
      s.old_cursor (s.new_cursor + 1)

abbrev del_line : Cursor → Text → Cursor
del_line s text =
    push_line s (record { kind = del; old_line = some s.old_cursor; new_line = none; text = text })
      (s.old_cursor + 1) s.new_cursor

abbrev context_line : Cursor → Text → Cursor
context_line s text =
    push_line s
      (record {
        kind = context;
        old_line = some s.old_cursor;
        new_line = some s.new_cursor;
        text = text;
      })
      (s.old_cursor + 1) (s.new_cursor + 1)

-- A body line, by its marker `raw[0]`.
pub body_line : Cursor → Text → Cursor
body_line s [] = context_line s []
body_line s (c ∷ rest) =
    if c == b'\\'
    then s
    else if c == b'+'
    then add_line s rest
    else if c == b'-'
    then del_line s rest
    else if c == b' '
    then context_line s rest
    else context_line s (c ∷ rest)

abbrev open_hunk : List DiffHunk → DiffHunk → Cursor
open_hunk closed h = record {
  closed = closed;
  current = h;
  old_cursor = h.old_start;
  new_cursor = h.new_start;
}

abbrev hunks_of : Cursor → List DiffHunk
hunks_of s = s.closed ++ s.current ∷ []

-- One round of the loop, on the header that the line matches; `none` before the first header.
pub next_cursor : Option Cursor → Text → Option DiffHunk → Option Cursor
unfolding body_line
next_cursor none raw none = none
next_cursor none raw (some h) = some (open_hunk [] h)
next_cursor (some s) raw none = some (body_line s raw)
next_cursor (some s) raw (some h) = some (open_hunk (hunks_of s) h)

pub parse_line : Option Cursor → Text → Option Cursor
unfolding next_cursor hunk_header
parse_line s raw = next_cursor s raw (hunk_header raw)

pub parse_lines : Option Cursor → List Text → Option Cursor
parse_lines s [] = s
parse_lines s (raw ∷ rest) = parse_lines (parse_line s raw) rest

abbrev all_hunks : Option Cursor → List DiffHunk
all_hunks none = []
all_hunks (some s) = hunks_of s

pub parse_hunks : Text → List DiffHunk
unfolding parse_lines parse_line
parse_hunks [] = []
parse_hunks (c ∷ s) = all_hunks (parse_lines none (pop_last_empty (split_on 10 (c ∷ s))))

abbrev blank_model : PullFile → FileDiffModel
blank_model file = record {
  path = file.filename;
  previous_path = file.previous_filename;
  status = file.status;
  binary = false;
  too_large = false;
  hunks = [];
  additions = file.additions;
  deletions = file.deletions;
}

abbrev parse_optional : PullFile → Option Text → FileDiffModel
parse_optional file none =
    if has_binary_extension file.filename
    then record (blank_model file) { binary = true }
    else record (blank_model file) { too_large = true }
parse_optional file (some patch) = record (blank_model file) { hunks = parse_hunks patch }

pub parse_patch : PullFile → FileDiffModel
parse_patch file = parse_optional file file.patch
