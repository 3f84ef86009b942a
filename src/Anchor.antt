-- ===== src/Anchor.antt =====
-- packages/shared/src/lib/anchor.ts: re-anchoring of draft comments after the head moved.
-- Lines are counted from 1, as in the comments: the source's index `i` is the line `i + 1`, and a
-- read out of the file is `none` (`undefined`). The bounds of a window are the source's in this
-- count, so the truncation of `-` at 0 is its `Math.max(0, …)`.
pub mod Scan
pub mod Context
pub mod Drift
pub mod Pending
mod Tests
pub mod Span
use revu.Prelude.{
  ℕ, zero, suc, ◌+◌, ◌-◌, min, max, ltb, leb, ◌==◌, if◌then◌else◌, Bool, true, false, not, ◌&&◌,
  ◌||◌, Option, none, some, List, [], ◌∷◌, length, get_elem?, find, any, Text, text_eq, trim_end,
  split_on, is_empty,
}
use revu.Prelude.Int.{sub_ℕ}
use revu.Api.{
  Side, left, right, Anchor, PendingComment, FileStatus, PullFile, BlobEntry, BlobIndex,
  AnchorResult, clean, drifted, lost, line_deleted, file_deleted, file_renamed, file_added,
}

pub data FilePresence : Type 0 where
  present deleted renamed added : FilePresence

abbrev pub search_radius : ℕ
search_radius = 400

abbrev pub start_search_radius : ℕ
start_search_radius = 40

abbrev pub context_depth : ℕ
context_depth = 3

abbrev pub clean_context_floor : ℕ
clean_context_floor = 2

-- lines[line - 1]
abbrev pub line_at : List Text → ℕ → Option Text
line_at lines zero = none
line_at lines (suc i) = get_elem? lines i

pub line_eq : Option Text → Option Text → Bool
line_eq none b = false
line_eq (some a) none = false
line_eq (some a) (some b) = text_eq (trim_end a) (trim_end b)

-- The entry's SHA on the side that `anchorSideKey` names.
unfoldable pub anchor_side_key : BlobEntry → Side → Option Text
anchor_side_key entry left = entry.base
anchor_side_key entry right = entry.head

unfoldable pub select_anchor_blob_sha : Option BlobEntry → Side → Option Text
select_anchor_blob_sha none side = none
select_anchor_blob_sha (some entry) side = anchor_side_key entry side

-- if (lines[lines.length - 1] === '') lines.pop()
unfoldable pub pop_last_empty : List Text → List Text
pop_last_empty [] = []
pop_last_empty (l ∷ []) = if is_empty l then [] else l ∷ []
pop_last_empty (l ∷ m ∷ ls) = l ∷ pop_last_empty (m ∷ ls)

unfoldable pub blob_content_to_lines : Text → List Text
blob_content_to_lines [] = []
blob_content_to_lines (c ∷ s) = pop_last_empty (split_on 10 (c ∷ s))

-- before[before.length - j], for j ≥ 1
abbrev pub nth_last : List Text → ℕ → Option Text
nth_last before j = if leb j (length before) then get_elem? before (length before - j) else none

-- expected !== undefined && lineEq(actual, expected) adds the weight
abbrev credit : Option Text → Option Text → ℕ → ℕ
credit actual expected weight = if line_eq actual expected then weight else 0

-- One round of the loop of `contextScore`, at distance j.
pub context_round : Anchor → List Text → ℕ → ℕ → ℕ → ℕ
context_round anchor lines line j score =
    let weight = context_depth + 1 - j in
    score
    + credit (line_at lines (line - j)) (nth_last anchor.context_before j) weight
    + credit (line_at lines (line + j)) (line_at anchor.context_after j) weight

pub context_score : Anchor → List Text → ℕ → ℕ
context_score anchor lines line =
    context_round anchor lines line 3
      (context_round anchor lines line 2 (context_round anchor lines line 1 0))

-- The window of ±`radius` lines around `line`, in the file and up to `last`.
abbrev pub window_lo : ℕ → ℕ → ℕ
window_lo radius line = line - (radius + 1) + 1

abbrev pub window_rounds : ℕ → ℕ → ℕ → ℕ
window_rounds radius last line = min last (line + radius) + 1 - window_lo radius line

-- The loop of `isDuplicatedInWindow` over n lines from line i.
pub duplicated_from : (ℕ → Bool) → ℕ → ℕ → ℕ → Bool
duplicated_from hit zero i seen = false
duplicated_from hit (suc n) i seen =
    let seen' = if hit i then seen + 1 else seen in
    let rest = duplicated_from hit n (i + 1) seen' in if hit i && ltb 1 seen' then true else rest

pub is_duplicated_in_window : List Text → Text → ℕ → Bool
is_duplicated_in_window lines target line =
    duplicated_from (λ i. line_eq (line_at lines i) (some target))
      (window_rounds search_radius (length lines) line) (window_lo search_radius line) 0

pub record Start : Type 0 where
  pub new_start_line : Option ℕ
  pub uncertain : Bool

-- |a - b|
abbrev pub dist : ℕ → ℕ → ℕ
dist a b = (a - b) + (b - a)

-- Whether a start found at a distance replaces the best one; none is the distance infinity.
abbrev pub nearer : Option ℕ → ℕ → ℕ → Bool
nearer none rigid i = true
nearer (some b) rigid i = ltb (dist i rigid) (dist b rigid)

-- The search loop of `resolveRangedStart`, over n lines from line i.
pub nearest_from : (ℕ → Bool) → ℕ → ℕ → ℕ → Option ℕ → Option ℕ
nearest_from hit rigid zero i best = best
nearest_from hit rigid (suc n) i best =
    nearest_from hit rigid n (i + 1) (if hit i && nearer best rigid i then some i else best)

-- Math.min(newLine, Math.max(1, comment.start_line + delta)), delta = newLine - comment.line
abbrev pub rigid_start : ℕ → ℕ → ℕ → ℕ
rigid_start start line new_line = min new_line (max 1 (start + new_line - line))

abbrev found_start : ℕ → Option ℕ → Start
found_start rigid none = record { new_start_line = some rigid; uncertain = true }
found_start rigid (some i) = record { new_start_line = some i; uncertain = false }

-- The search around the rigid position, when that does not hold the start's text.
pub search_start : List Text → Text → ℕ → ℕ → Start
unfolding nearest_from
search_start lines text new_line rigid = found_start rigid (
    nearest_from (λ i. line_eq (line_at lines i) (some text)) rigid
      (window_rounds start_search_radius new_line rigid) (window_lo start_search_radius rigid) none)

pub resolve_start_text : List Text → Option Text → ℕ → ℕ → Start
unfolding search_start line_eq
resolve_start_text lines none new_line rigid = record {
  new_start_line = some rigid;
  uncertain = false;
}
resolve_start_text lines (some text) new_line rigid =
    if line_eq (line_at lines rigid) (some text)
    then record { new_start_line = some rigid; uncertain = false }
    else search_start lines text new_line rigid

pub resolve_start_line : PendingComment → Option ℕ → List Text → ℕ → Start
unfolding resolve_start_text
resolve_start_line c none lines new_line = record { new_start_line = none; uncertain = false }
resolve_start_line c (some start) lines new_line =
    resolve_start_text lines c.anchor.start_line_text new_line (rigid_start start c.line new_line)

pub resolve_ranged_start : PendingComment → List Text → ℕ → Start
unfolding resolve_start_line
resolve_ranged_start c lines new_line = resolve_start_line c c.start_line lines new_line

pub record Best : Type 0 where
  pub line : ℕ
  pub score : ℕ
  pub abs_delta : ℕ

abbrev pub better : Option Best → ℕ → ℕ → Bool
better none score abs_delta = true
better (some b) score abs_delta =
    ltb b.score score || (score == b.score && ltb abs_delta b.abs_delta)

abbrev consider : (ℕ → Bool) → (ℕ → ℕ) → ℕ → ℕ → Option Best → Option Best
consider hit score line i best =
    if hit i && better best (score i) (dist i line)
    then some (record { line = i; score = score i; abs_delta = dist i line })
    else best

-- The drift search of `classifyAnchor`, over n lines from line i.
pub best_from : (ℕ → Bool) → (ℕ → ℕ) → ℕ → ℕ → ℕ → Option Best → Option Best
best_from hit score line zero i best = best
best_from hit score line (suc n) i best =
    best_from hit score line n (i + 1) (consider hit score line i best)

pub drift_search : PendingComment → List Text → Option Best
drift_search c lines =
    best_from (λ i. line_eq (line_at lines i) (some c.anchor.line_text))
      (context_score c.anchor lines) c.line (window_rounds search_radius (length lines) c.line)
      (window_lo search_radius c.line) none

pub drift_result : PendingComment → List Text → Option Best → AnchorResult
drift_result c lines none = lost c line_deleted
drift_result c lines (some b) =
    let start = resolve_ranged_start c lines b.line in
    drifted c b.line start.new_start_line (sub_ℕ b.line c.line) start.uncertain

-- The test of the `clean` fast path.
pub stays_clean : PendingComment → List Text → Bool
stays_clean c lines =
    line_eq (line_at lines c.line) (some c.anchor.line_text)
    && (leb clean_context_floor (context_score c.anchor lines c.line)
        || not (is_duplicated_in_window lines c.anchor.line_text c.line))

pub classify_lines : PendingComment → List Text → AnchorResult
classify_lines c lines =
    if is_empty lines
    then lost c line_deleted
    else if stays_clean c lines
    then clean c
    else drift_result c lines (drift_search c lines)

pub classify_present : PendingComment → Option (List Text) → AnchorResult
unfolding classify_lines
classify_present c none = lost c line_deleted
classify_present c (some lines) = classify_lines c lines

pub classify_anchor : PendingComment → Option (List Text) → FilePresence → AnchorResult
unfolding classify_present
classify_anchor c lines deleted = lost c file_deleted
classify_anchor c lines renamed = lost c file_renamed
classify_anchor c lines added = lost c file_added
classify_anchor c lines present = classify_present c lines

abbrev is_removed : FileStatus → Bool
is_removed FileStatus.removed = true
is_removed _ = false

abbrev is_added : FileStatus → Bool
is_added FileStatus.added = true
is_added _ = false

abbrev is_renamed : FileStatus → Bool
is_renamed FileStatus.renamed = true
is_renamed _ = false

-- `x === path`, false on `undefined`
abbrev pub names_path : Option Text → Text → Bool
names_path none path = false
names_path (some x) path = text_eq x path

-- A SHA that is a non-empty text: neither `null`, `undefined` nor ''.
abbrev pub truthy : Option Text → Option Text
truthy none = none
truthy (some []) = none
truthy (some (c ∷ s)) = some (c ∷ s)

abbrev has_value : Option Text → Bool
has_value none = false
has_value (some s) = true

abbrev file_presence : Side → FileStatus → FilePresence
file_presence right status = if is_removed status then deleted else present
file_presence left status = if is_added status then added else present

pub resolve_file_presence :
    Text → Side → Option PullFile → List PullFile → Option BlobEntry → FilePresence
resolve_file_presence path side (some file) files entry = file_presence side file.status
resolve_file_presence path side none files entry =
    if any (λ f. is_renamed f.status && names_path f.previous_filename path) files
    then renamed
    else if has_value (truthy (select_anchor_blob_sha entry side))
    then present
    else deleted

abbrev resolved : (Text → Option (List Text)) → Option Text → Option (List Text)
resolved resolve_blob_lines none = none
resolved resolve_blob_lines (some sha) = resolve_blob_lines sha

pub classify_pending_comment :
    PendingComment → List PullFile → BlobIndex → (Text → Option (List Text)) → AnchorResult
classify_pending_comment c files blob_index resolve_blob_lines =
    let entry = blob_index c.path in
    let file = find (λ f. text_eq f.filename c.path) files in
    let presence = resolve_file_presence c.path c.side file files entry in
    let lines = resolved resolve_blob_lines (truthy (select_anchor_blob_sha entry c.side)) in
    classify_anchor c lines presence
