-- ===== src/Diff/Rows/Hunks/Coverage.antt =====
-- buildRows: the new-file lines that the rows of a whole file show.
use revu.Prelude.{
  ℕ, zero, suc, ◌+◌, ◌-◌, ◌≤◌, ◌≡◌, refl, sym, ap, ap₂, ◌∙◌, Bool, true, false, Option, none, some,
  List, [], ◌∷◌, ◌++◌, Text, arith, ltb, leb, if◌then◌else◌, Bool-cases, inl, inr, length,
}
use mathlib.Core.List.{append_assoc, append-nil}
use revu.Api.{FileStatus}
use revu.Diff.{LineKind, context, add, del, DiffLine, DiffHunk, FileDiffModel}
use revu.Diff.Intraline.{Change}
use revu.Diff.Parse.Numbering.{
  IsNumbered, IsNumberedHunk, new_size, new_number, new_width, old_width,
}
use revu.Diff.Expand.{ExpandedRange, normalize_expanded}
use revu.Diff.Rows.{hunk_row, DiffRow, context_row, GapRegion, emit_gap_region}
use revu.Diff.Rows.Gaps.{
  Numbers, count_up, side_numbers, rows_numbers, rows_numbers-append, emit_gap_region_numbers,
}
use revu.Diff.Rows
use revu.Anchor.{blob_content_to_lines}
use revu.Diff.Rows.Hunks.{
  file_rows, Placed, SpanMap, place, emit_unified_lines, pair_rows, split_loop, emit_lines, by_kind,
  gap_end, next_line, View, region_rows, trailing_rows, hunk_rows, build_rows, is_removed, is_added,
  compute_intraline_spans,
}

-- k numbers from n.
abbrev pub seq : ℕ → ℕ → List ℕ
seq zero n = []
seq (suc k) n = n ∷ seq k (suc n)

abbrev listed : Option ℕ → List ℕ
listed none = []
listed (some n) = n ∷ []

abbrev new_lines_of : List Numbers → List ℕ
new_lines_of [] = []
new_lines_of (x ∷ xs) = listed x.0 ++ new_lines_of xs

-- The new-file lines that the rows show, from top to bottom.
abbrev pub shown : List DiffRow → List ℕ
shown rows = new_lines_of (rows_numbers rows)

new_lines_of-append :
    (xs ys : List Numbers) → new_lines_of (xs ++ ys) ≡ new_lines_of xs ++ new_lines_of ys
new_lines_of-append [] ys = refl
new_lines_of-append (x ∷ xs) ys =
    ap (λ t. listed x.0 ++ t) (new_lines_of-append xs ys)
    ∙ sym (append_assoc (listed x.0) (new_lines_of xs) (new_lines_of ys))

shown-append : (rs ss : List DiffRow) → shown (rs ++ ss) ≡ shown rs ++ shown ss
shown-append rs ss =
    ap new_lines_of (rows_numbers-append rs ss)
    ∙ new_lines_of-append (rows_numbers rs) (rows_numbers ss)

new_lines_of-count_up : (k n o : ℕ) → new_lines_of (count_up k n o) ≡ seq k n
new_lines_of-count_up zero n o = refl
new_lines_of-count_up (suc k) n o = ap (λ t. n ∷ t) (new_lines_of-count_up k (suc n) (suc o))

seq-append : (k l m n n' : ℕ) → k + l ≡ m → n + k ≡ n' → seq k n ++ seq l n' ≡ seq m n
seq-append zero l m n n' e f =
    let a : l ≡ m = omega arith in let b : n' ≡ n = omega arith in rw (a, b)
seq-append (suc k) l zero n n' e f = absurd (omega arith)
seq-append (suc k) l (suc m) n n' e f =
    ap (λ t. n ∷ t) (seq-append k l m (suc n) n' (omega arith) (omega arith))

-- The new numbers of lines, and of placed lines.
abbrev numbers_of : List DiffLine → List ℕ
numbers_of [] = []
numbers_of (l ∷ ls) = listed l.new_line ++ numbers_of ls

abbrev placed_numbers : List Placed → List ℕ
placed_numbers [] = []
placed_numbers ((i, l) ∷ ls) = listed l.new_line ++ placed_numbers ls

numbers_step :
    (k : LineKind) (n size : ℕ) (x : Option ℕ) (rest : List ℕ)
    → x ≡ new_number k n
    → rest ≡ seq size (n + new_width k)
    → listed x ++ rest ≡ seq (new_width k + size) n
numbers_step context n size x rest e f =
    let a : n + 1 ≡ suc n = omega arith in
    let b : 1 + size ≡ suc size = omega arith in rw (e, f, a, b)
numbers_step add n size x rest e f =
    let a : n + 1 ≡ suc n = omega arith in
    let b : 1 + size ≡ suc size = omega arith in rw (e, f, a, b)
numbers_step del n size x rest e f =
    let a : n + 0 ≡ n = omega arith in let b : 0 + size ≡ size = omega arith in rw (e, f, a, b)

numbers_of-IsNumbered :
    (o n : ℕ) (ls : List DiffLine) → IsNumbered o n ls → numbers_of ls ≡ seq (new_size ls) n
numbers_of-IsNumbered o n [] h = refl
numbers_of-IsNumbered o n (l ∷ ls) h =
    numbers_step l.kind n (new_size ls) l.new_line (numbers_of ls) h.0.1
      (numbers_of-IsNumbered (o + old_width l.kind) (n + new_width l.kind) ls h.1)

shown-emit_unified_lines :
    (i : ℕ) (ls : List DiffLine) (spans : SpanMap)
    → shown (emit_unified_lines (place i ls) spans) ≡ numbers_of ls
unfolding emit_unified_lines place
shown-emit_unified_lines i [] spans = refl
shown-emit_unified_lines i (l ∷ ls) spans =
    ap (λ t. listed l.new_line ++ t) (shown-emit_unified_lines (suc i) ls spans)

side-listed : (l : DiffLine) → new_lines_of (side_numbers (some l)) ≡ listed l.new_line
side-listed l = append-nil (listed l.new_line)

shown-pair_rows :
    (spans : SpanMap) (dels adds : List Placed)
    → shown (pair_rows spans dels adds) ≡ placed_numbers adds
unfolding pair_rows
shown-pair_rows spans [] [] = refl
shown-pair_rows spans [] ((j, a) ∷ adds) =
    ap (λ t. listed a.new_line ++ t) (shown-pair_rows spans [] adds)
shown-pair_rows spans ((i, d) ∷ dels) [] = shown-pair_rows spans dels []
shown-pair_rows spans ((i, d) ∷ dels) ((j, a) ∷ adds) =
    ap (λ t. listed a.new_line ++ t) (shown-pair_rows spans dels adds)

placed_numbers-append :
    (xs ys : List Placed) → placed_numbers (xs ++ ys) ≡ placed_numbers xs ++ placed_numbers ys
placed_numbers-append [] ys = refl
placed_numbers-append ((i, l) ∷ xs) ys =
    ap (λ t. listed l.new_line ++ t) (placed_numbers-append xs ys)
    ∙ sym (append_assoc (listed l.new_line) (placed_numbers xs) (placed_numbers ys))

split_case :
    (k : LineKind) (n : ℕ) (flushed deleted added : List DiffRow) (x : Option ℕ)
    (front rest : List ℕ)
    → x ≡ new_number k n
    → shown flushed ≡ front ++ (listed x ++ rest)
    → shown deleted ≡ front ++ rest
    → shown added ≡ (front ++ listed x) ++ rest
    → shown (by_kind k flushed deleted added) ≡ front ++ (listed x ++ rest)
split_case context n flushed deleted added x front rest e f g h = f
split_case del n flushed deleted added x front rest e f g h =
    g ∙ ap (λ (y : Option ℕ). front ++ (listed y ++ rest)) (sym e)
split_case add n flushed deleted added x front rest e f g h = h ∙ append_assoc front (listed x) rest

placed_numbers-snoc :
    (xs : List Placed) (i : ℕ) (l : DiffLine)
    → placed_numbers (xs ++ (i, l) ∷ []) ≡ placed_numbers xs ++ listed l.new_line
placed_numbers-snoc xs i l =
    placed_numbers-append xs ((i, l) ∷ [])
    ∙ ap (λ t. placed_numbers xs ++ t) (append-nil (listed l.new_line))

shown-split_loop :
    (spans : SpanMap) (dels adds : List Placed) (i o n : ℕ) (ls : List DiffLine)
    → IsNumbered o n ls
    → shown (split_loop spans dels adds (place i ls)) ≡ placed_numbers adds ++ numbers_of ls
unfolding split_loop place
shown-split_loop spans dels adds i o n [] h = shown-pair_rows spans dels adds ∙ sym (append-nil _)
shown-split_loop spans dels adds i o n (l ∷ ls) h =
    let ih = λ (ds as' : List Placed).
      shown-split_loop spans ds as' (suc i) (o + old_width l.kind) (n + new_width l.kind) ls h.1 in
    let flushed =
      shown-append (pair_rows spans dels adds)
        (context_row true l ∷ split_loop spans [] [] (place (suc i) ls))
      ∙ ap₂ ◌++◌ (shown-pair_rows spans dels adds) (ap (λ t. listed l.new_line ++ t) (ih [] [])) in
    split_case l.kind n _ _ _ l.new_line (placed_numbers adds) (numbers_of ls) h.0.1 flushed
      (ih (dels ++ (i, l) ∷ []) adds)
      (ih dels (adds ++ (i, l) ∷ []) ∙ ap (λ t. t ++ numbers_of ls) (placed_numbers-snoc adds i l))

shown-emit_lines :
    (split : Bool) (o n : ℕ) (ls : List DiffLine) (spans : SpanMap)
    → IsNumbered o n ls
    → shown (emit_lines split (place 0 ls) spans) ≡ seq (new_size ls) n
unfolding emit_lines
shown-emit_lines true o n ls spans h =
    shown-split_loop spans [] [] 0 o n ls h ∙ numbers_of-IsNumbered o n ls h
shown-emit_lines false o n ls spans h =
    shown-emit_unified_lines 0 ls spans ∙ numbers_of-IsNumbered o n ls h

-- The first new-file line from the hunk's start on.
abbrev pub first_new : DiffHunk → ℕ
first_new h = if ltb 0 h.new_lines then h.new_start else h.new_start + 1

-- Hunks as a compare produces them, in a file of `total` lines whose lines from n are still to be
-- shown: numbered, of the size that their headers state, in order, and inside the file.
abbrev pub IsLaidOut : ℕ → ℕ → List DiffHunk → Type 0
IsLaidOut total n [] = n ≤ total + 1
IsLaidOut total n (h ∷ hs) =
    IsNumberedHunk h
    × (new_size h.lines ≡ h.new_lines)
    × (n ≤ first_new h)
    × IsLaidOut total (next_line h.new_start h.new_lines) hs

IsLaidOut-le : (total n : ℕ) (hs : List DiffHunk) → IsLaidOut total n hs → n ≤ total + 1
IsLaidOut-le total n [] h = h
IsLaidOut-le total n (k ∷ ks) (numbered, size, order, rest) =
    let later = IsLaidOut-le total (next_line k.new_start k.new_lines) ks rest in ground arith

-- The gap before a hunk, its lines and what follows it join to one sequence.
hunk_seq :
    (n total start lines : ℕ)
    → 1 ≤ n
    → n ≤ (if ltb 0 lines then start else start + 1)
    → next_line start lines ≤ total + 1
    → seq ((if ltb 0 lines then start - 1 else start) + 1 - n) n
        ++ (seq lines start ++ seq (total + 1 - next_line start lines) (next_line start lines))
      ≡ seq (total + 1 - n) n
hunk_seq n total start zero l h k =
    seq-append (start + 1 - n) (total + 1 - (start + 1)) (total + 1 - n) n (start + 1) (omega arith)
      (omega arith)
hunk_seq n total start (suc lines) l h k =
    let after : start + suc lines ≤ total + 1 = ground arith in
    let before : n ≤ start = ground arith in
    let some_lines : ltb 0 (suc lines) ≡ true = ground arith in
    rw some_lines (
      ap (λ t. seq (start - 1 + 1 - n) n ++ t)
        (seq-append (suc lines) (total + 1 - (start + suc lines)) (total + 1 - start) start
          (start + suc lines) (omega arith) refl)
      ∙ seq-append (start - 1 + 1 - n) (total + 1 - start) (total + 1 - n) n start (omega arith)
          (omega arith))

module _ (diff_words : Text → Text → List Change) (expanded : List ExpandedRange) (split : Bool)
    (status : FileStatus) (head : List Text) (kept : is_removed status ≡ false) where
  abbrev view : View
  view = record { has_gaps = true; head_lines = some head; expanded = expanded; split = split }

  shown-region_rows : (o n last : ℕ) → shown (region_rows view o n last) ≡ seq (last + 1 - n) n
  shown-region_rows o n last =
      ap new_lines_of (
        emit_gap_region_numbers (record { new_start = n; new_end = last; old_start = o }) expanded
          (some head) split)
      ∙ new_lines_of-count_up (last + 1 - n) n o

  shown-trailing_rows :
      (o n : ℕ)
      → n ≤ length head + 1
      → shown (trailing_rows view status o n (some head)) ≡ seq (length head + 1 - n) n
  shown-trailing_rows o n h = elim (Bool-cases (leb n (length head))) [
    | inl e ↦ rw (kept, e) (shown-region_rows o n (length head))
    | inr e ↦ let size : length head + 1 - n ≡ 0 = ground arith in rw (kept, e, size)
  ]

  shown-hunk_rows :
      (i o n : ℕ) (hs : List DiffHunk)
      → 1 ≤ n
      → IsLaidOut (length head) n hs
      → shown (hunk_rows diff_words view status i o n hs) ≡ seq (length head + 1 - n) n
  unfolding hunk_rows
  shown-hunk_rows i o n [] l h = shown-trailing_rows o n h
  shown-hunk_rows i o n (k ∷ ks) l (numbered, size, order, rest) =
      let spans = compute_intraline_spans diff_words k.lines in
      let lines = emit_lines split (place 0 k.lines) spans in
      let next = next_line k.new_start k.new_lines in
      let later =
        hunk_rows diff_words view status (suc i) (next_line k.old_start k.old_lines) next ks in
      let bound : next ≤ length head + 1 = IsLaidOut-le (length head) next ks rest in
      let start : 1 ≤ next = ground arith in
      shown-append (region_rows view o n (gap_end k))
        (Rows.hunk_header (hunk_row i) k.header ∷ (lines ++ later))
      ∙ ap₂ ◌++◌ (shown-region_rows o n (gap_end k)) (
          shown-append lines later
          ∙ ap₂ ◌++◌
              (shown-emit_lines split k.old_start k.new_start k.lines spans numbered
                ∙ ap (λ t. seq t k.new_start) size)
              (shown-hunk_rows (suc i) (next_line k.old_start k.old_lines) next ks start rest))
      ∙ hunk_seq n (length head) k.new_start k.new_lines l order bound

  shown-file_rows :
      (hs : List DiffHunk)
      → IsLaidOut (length head) 1 hs
      → shown (file_rows diff_words view status hs) ≡ seq (length head) 1
  shown-file_rows [] h = shown-trailing_rows 1 1 (omega arith) ∙ ap (λ t. seq t 1) (omega arith)
  shown-file_rows (k ∷ ks) h =
      shown-hunk_rows 0 1 1 (k ∷ ks) (omega arith) h ∙ ap (λ t. seq t 1) (omega arith)

-- For a modified or renamed text file whose head content is known, and whose hunks are laid out in
-- it as a compare lays them out, the rows in either mode, whatever ranges are expanded and whatever
-- the word diff answers, show every line of the head file exactly once and in order.
pub shown-build_rows :
    (diff_words : Text → Text → List Change) (model : FileDiffModel) (split : Bool)
    (expanded : List ExpandedRange) (content : Text)
    → model.binary ≡ false
    → model.too_large ≡ false
    → is_removed model.status ≡ false
    → is_added model.status ≡ false
    → IsLaidOut (length (blob_content_to_lines content)) 1 model.hunks
    → shown (build_rows diff_words model split expanded (some content))
      ≡ seq (length (blob_content_to_lines content)) 1
unfolding build_rows
shown-build_rows diff_words model split expanded content b t r a h =
    simp (b, t, a)
      (shown-file_rows diff_words (normalize_expanded expanded) split model.status
        (blob_content_to_lines content) r model.hunks h)
