-- ===== src/Diff/Rows/Gaps.antt =====
-- emitGapRegion: the lines that the rows of a collapsed region show.
use revu.Prelude.{
  ℕ, zero, suc, ◌+◌, ◌-◌, ◌≤◌, ◌≡◌, refl, sym, ap, ap₂, ◌∙◌, Bool, true, false, Option, none, some,
  List, [], ◌∷◌, ◌++◌, Text, arith, ltb, leb, if◌then◌else◌, min, max, Bool-cases, inl, inr, ltb→lt,
  leb→le,
}
use mathlib.Core.List.{append_assoc, append-nil}
use revu.Diff.{DiffLine}
use revu.Diff.Expand.{ExpandedRange}
use revu.Diff.Rows.{
  DiffRow, gap, hunk_header, line, pair, GapRegion, old_at, push_gap, synthesized, context_row,
  expanded_rows, gap_between, gap_loop, emit_gap_region,
}

-- A line's number in the new file with its number in the old one.
abbrev pub Numbers : Type 0
Numbers = Option ℕ × Option ℕ

-- k lines from line n, where line n is line o of the old file.
abbrev pub count_up : ℕ → ℕ → ℕ → List Numbers
count_up zero n o = []
count_up (suc k) n o = (some n, some o) ∷ count_up k (suc n) (suc o)

abbrev pub line_numbers : DiffLine → Numbers
line_numbers l = (l.new_line, l.old_line)

abbrev pub side_numbers : Option DiffLine → List Numbers
side_numbers none = []
side_numbers (some l) = line_numbers l ∷ []

-- The lines of the new file that a row stands for.
abbrev pub row_numbers : DiffRow → List Numbers
row_numbers (gap id g) = count_up g.count g.new_start g.old_start
row_numbers (hunk_header id text) = []
row_numbers (line id l spans) = line_numbers l ∷ []
row_numbers (pair id left right l r) = side_numbers right

abbrev pub rows_numbers : List DiffRow → List Numbers
rows_numbers [] = []
rows_numbers (r ∷ rs) = row_numbers r ++ rows_numbers rs

pub rows_numbers-append :
    (rs ss : List DiffRow) → rows_numbers (rs ++ ss) ≡ rows_numbers rs ++ rows_numbers ss
rows_numbers-append [] ss = refl
rows_numbers-append (r ∷ rs) ss =
    ap (λ t. row_numbers r ++ t) (rows_numbers-append rs ss)
    ∙ sym (append_assoc (row_numbers r) (rows_numbers rs) (rows_numbers ss))

pub count_up-append :
    (k l m n o n' o' : ℕ)
    → k + l ≡ m
    → n + k ≡ n'
    → o + k ≡ o'
    → count_up k n o ++ count_up l n' o' ≡ count_up m n o
count_up-append zero l m n o n' o' e f g =
    let a : l ≡ m = omega arith in
    let b : n' ≡ n = omega arith in let c : o' ≡ o = omega arith in rw (a, b, c)
count_up-append (suc k) l zero n o n' o' e f g = absurd (omega arith)
count_up-append (suc k) l (suc m) n o n' o' e f g =
    ap (λ t. (some n, some o) ∷ t)
      (count_up-append k l m (suc n) (suc o) n' o' (omega arith) (omega arith) (omega arith))

context_row_numbers :
    (split : Bool) (l : DiffLine) → row_numbers (context_row split l) ≡ line_numbers l ∷ []
context_row_numbers true l = refl
context_row_numbers false l = refl

module _ (region : GapRegion) (head_lines : List Text) (split : Bool) where
  -- The lines of the region from n to before `last`.
  abbrev from_to : ℕ → ℕ → List Numbers
  from_to n last = count_up (last - n) n (old_at region n)

  join :
      (a b c : ℕ) → region.new_start ≤ a → a ≤ b → b ≤ c → from_to a b ++ from_to b c ≡ from_to a c
  join a b c l h k =
      count_up-append (b - a) (c - b) (c - a) a (old_at region a) b (old_at region b) (omega arith)
        (omega arith) (omega arith)

  expanded_rows_numbers :
      (count n o : ℕ)
      → region.new_start ≤ n
      → o ≡ old_at region n
      → rows_numbers (expanded_rows region head_lines split count n) ≡ count_up count n o
  unfolding expanded_rows
  expanded_rows_numbers zero n o l e = refl
  expanded_rows_numbers (suc count) n o l e =
      let next : n + 1 ≡ suc n = omega arith in
      ap₂ ◌++◌ (context_row_numbers split (synthesized region head_lines n))
        (expanded_rows_numbers count (n + 1) (suc o) (omega arith) (omega arith))
      ∙ rw (next, e)

  gap_between_numbers :
      (first last : ℕ) → rows_numbers (gap_between region first last) ≡ from_to first (last + 1)
  gap_between_numbers first last = elim (Bool-cases (leb first last)) [
    | inl e ↦
        let size : last - first + 1 ≡ last + 1 - first = omega (arith, leb→le first last e) in
        rw e (append-nil _ ∙ ap (λ k. count_up k first (old_at region first)) size)
    | inr e ↦ let size : last + 1 - first ≡ 0 = ground arith in rw (e, size)
  ]

  -- The gap before an expanded range.
  abbrev gap_before : ℕ → ℕ → List DiffRow
  gap_before cursor from = if ltb cursor from then push_gap region cursor (from - 1) ∷ [] else []

  gap_before_numbers :
      (cursor from : ℕ)
      → cursor ≤ from
      → rows_numbers (gap_before cursor from) ≡ from_to cursor from
  gap_before_numbers cursor from h = elim (Bool-cases (ltb cursor from)) [
    | inl e ↦
        let size : from - 1 - cursor + 1 ≡ from - cursor = omega (arith, ltb→lt cursor from e) in
        rw e (append-nil _ ∙ ap (λ k. count_up k cursor (old_at region cursor)) size)
    | inr e ↦ let size : from - cursor ≡ 0 = ground arith in rw (e, size)
  ]

  shown_numbers :
      (cursor from to last : ℕ) (rest : List DiffRow)
      → region.new_start ≤ cursor
      → cursor ≤ from
      → from ≤ to
      → to + 1 ≤ last
      → rows_numbers rest ≡ from_to (to + 1) last
      → rows_numbers (
          gap_before cursor from
          ++ (expanded_rows region head_lines split (to + 1 - from) from ++ rest))
        ≡ from_to cursor last
  shown_numbers cursor from to last rest l h k u e =
      let shown = expanded_rows region head_lines split (to + 1 - from) from in
      let body : rows_numbers (shown ++ rest) ≡ from_to from last =
        rows_numbers-append shown rest
        ∙ ap₂ ◌++◌
            (expanded_rows_numbers (to + 1 - from) from (old_at region from) (omega arith) refl) e
        ∙ join from (to + 1) last (omega arith) (omega arith) u in
      rows_numbers-append (gap_before cursor from) (shown ++ rest)
      ∙ ap₂ ◌++◌ (gap_before_numbers cursor from h) body
      ∙ join cursor from last l h (omega arith)

  pub gap_loop_numbers :
      (rs : List ExpandedRange) (cursor : ℕ)
      → region.new_start ≤ cursor
      → rows_numbers (gap_loop region head_lines split cursor rs)
        ≡ from_to cursor (region.new_end + 1)
  unfolding gap_loop
  gap_loop_numbers [] cursor l = gap_between_numbers cursor region.new_end
  gap_loop_numbers (r ∷ rs) cursor l = elim (Bool-cases (ltb r.to_new cursor)) [
    | inl e ↦ rw e (gap_loop_numbers rs cursor l)
    | inr e ↦ elim (Bool-cases (ltb region.new_end r.from_new)) [
      | inl f ↦ rw (e, f) (gap_between_numbers cursor region.new_end)
      | inr f ↦ elim (Bool-cases (ltb (min r.to_new region.new_end) (max r.from_new cursor))) [
        | inl g ↦ rw (e, f, g) (gap_loop_numbers rs cursor l)
        | inr g ↦
            rw (e, f, g)
              (shown_numbers cursor (max r.from_new cursor) (min r.to_new region.new_end)
                (region.new_end + 1)
                (gap_loop region head_lines split (min r.to_new region.new_end + 1) rs) l
                (omega arith) (ground arith) (omega arith)
                (gap_loop_numbers rs (min r.to_new region.new_end + 1) (ground arith)))
      ]
    ]
  ]

old_at_start : (region : GapRegion) → old_at region region.new_start ≡ region.old_start
old_at_start region = omega arith

no_lines :
    (region : GapRegion)
    → ltb region.new_end region.new_start ≡ true
    → region.new_end + 1 - region.new_start ≡ 0
no_lines region e = ground arith

-- Whatever ranges are expanded, in whichever order, and in both modes, the rows of a region show its
-- new-file lines from first to last, each once and in order, each with its old-file number: the gap
-- rows and the expanded lines together leave none out and repeat none.
pub emit_gap_region_numbers :
    (region : GapRegion) (expanded : List ExpandedRange) (head_lines : Option (List Text))
    (split : Bool)
    → rows_numbers (emit_gap_region region expanded head_lines split)
      ≡ count_up (region.new_end + 1 - region.new_start) region.new_start region.old_start
unfolding emit_gap_region
emit_gap_region_numbers region expanded none split =
    elim (Bool-cases (ltb region.new_end region.new_start)) [
      | inl e ↦ rw (e, no_lines region e)
      | inr e ↦
          let size : region.new_end - region.new_start + 1 ≡ region.new_end + 1 - region.new_start =
            ground arith in
          rw e
            (append-nil _ ∙ ap₂ (λ k o. count_up k region.new_start o) size (old_at_start region))
    ]
emit_gap_region_numbers region expanded (some head_lines) split =
    elim (Bool-cases (ltb region.new_end region.new_start)) [
      | inl e ↦ rw (e, no_lines region e)
      | inr e ↦ rw e (
          gap_loop_numbers region head_lines split expanded region.new_start (omega arith)
          ∙ ap (count_up (region.new_end + 1 - region.new_start) region.new_start)
              (old_at_start region))
    ]
