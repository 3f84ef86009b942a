-- ===== src/Diff/Parse/Numbering.antt =====
-- The line numbers of parsed hunks.
use revu.Prelude.{
  ℕ, ◌+◌, ◌≡◌, refl, sym, subst, subst₂, Option, none, some, List, [], ◌∷◌, ◌++◌, All, All-append,
  Text, arith, ◌==◌, split_on, if_ind,
}
use revu.Diff.{LineKind, add, del, DiffLine, DiffHunk}
use revu.Anchor.{pop_last_empty}
use revu.Diff.Parse.{
  Cursor, push_line, context_line, body_line, open_hunk, hunks_of, hunk_header, next_cursor,
  parse_line, parse_lines, parse_hunks, all_hunks,
}

-- The numbers of a line of each kind at the cursors o and n.
abbrev pub old_number : LineKind → ℕ → Option ℕ
old_number add o = none
old_number _ o = some o

abbrev pub new_number : LineKind → ℕ → Option ℕ
new_number del n = none
new_number _ n = some n

abbrev pub old_width : LineKind → ℕ
old_width add = 0
old_width _ = 1

abbrev pub new_width : LineKind → ℕ
new_width del = 0
new_width _ = 1

-- The lines are numbered one after the other from o in the old file and from n in the new one.
abbrev pub IsNumbered : ℕ → ℕ → List DiffLine → Type 0
IsNumbered o n [] = Unit
IsNumbered o n (l ∷ ls) =
    ((l.old_line ≡ old_number l.kind o) × (l.new_line ≡ new_number l.kind n))
    × IsNumbered (o + old_width l.kind) (n + new_width l.kind) ls

abbrev pub old_size : List DiffLine → ℕ
old_size [] = 0
old_size (l ∷ ls) = old_width l.kind + old_size ls

abbrev pub new_size : List DiffLine → ℕ
new_size [] = 0
new_size (l ∷ ls) = new_width l.kind + new_size ls

abbrev pub IsNumberedHunk : DiffHunk → Type 0
IsNumberedHunk h = IsNumbered h.old_start h.new_start h.lines

old_size-append : (ls ms : List DiffLine) → old_size (ls ++ ms) ≡ old_size ls + old_size ms
old_size-append [] ms = omega arith
old_size-append (l ∷ ls) ms = omega (arith, old_size-append ls ms)

new_size-append : (ls ms : List DiffLine) → new_size (ls ++ ms) ≡ new_size ls + new_size ms
new_size-append [] ms = omega arith
new_size-append (l ∷ ls) ms = omega (arith, new_size-append ls ms)

IsNumbered-append :
    (o n o' n' : ℕ) (ls ms : List DiffLine)
    → o + old_size ls ≡ o'
    → n + new_size ls ≡ n'
    → IsNumbered o n ls
    → IsNumbered o' n' ms
    → IsNumbered o n (ls ++ ms)
IsNumbered-append o n o' n' [] ms e f h k =
    let same : o' ≡ o = omega arith in
    let same' : n' ≡ n = omega arith in subst₂ (λ a b. IsNumbered a b ms) same same' k
IsNumbered-append o n o' n' (l ∷ ls) ms e f h k = (
  h.0,
  IsNumbered-append (o + old_width l.kind) (n + new_width l.kind) o' n' ls ms (omega arith)
      (omega arith) h.1 k,
)

-- The loop's invariant.
record IsInOrder (s : Cursor) : Type 0 where
  closed : All IsNumberedHunk s.closed
  current : IsNumberedHunk s.current
  old_at : s.current.old_start + old_size s.current.lines ≡ s.old_cursor
  new_at : s.current.new_start + new_size s.current.lines ≡ s.new_cursor

push_line-IsInOrder :
    (s : Cursor) (l : DiffLine) (o n : ℕ)
    → l.old_line ≡ old_number l.kind s.old_cursor
    → l.new_line ≡ new_number l.kind s.new_cursor
    → o ≡ s.old_cursor + old_width l.kind
    → n ≡ s.new_cursor + new_width l.kind
    → IsInOrder s
    → IsInOrder (push_line s l o n)
push_line-IsInOrder s l o n e f p q h = record {
  closed = h.closed;
  current =
      IsNumbered-append s.current.old_start s.current.new_start s.old_cursor s.new_cursor
        s.current.lines (l ∷ []) h.old_at h.new_at h.current ((e, f), tt);
  old_at = omega (arith, h.old_at, old_size-append s.current.lines (l ∷ []));
  new_at = omega (arith, h.new_at, new_size-append s.current.lines (l ∷ []));
}

context_line-IsInOrder : (s : Cursor) (text : Text) → IsInOrder s → IsInOrder (context_line s text)
context_line-IsInOrder s text = push_line-IsInOrder s _ _ _ refl refl refl refl

body_line-IsInOrder : (s : Cursor) (raw : Text) → IsInOrder s → IsInOrder (body_line s raw)
unfolding body_line
body_line-IsInOrder s [] h = context_line-IsInOrder s [] h
body_line-IsInOrder s (c ∷ rest) h = if_ind IsInOrder (c == b'\\') h (
    if_ind IsInOrder (c == b'+')
      (push_line-IsInOrder s
        (record { kind = add; old_line = none; new_line = some s.new_cursor; text = rest }) _ _ refl
        refl (omega arith) refl h)
      (if_ind IsInOrder (c == b'-')
        (push_line-IsInOrder s
          (record { kind = del; old_line = some s.old_cursor; new_line = none; text = rest }) _ _
          refl refl refl (omega arith) h)
        (if_ind IsInOrder (c == b' ') (context_line-IsInOrder s rest h)
          (context_line-IsInOrder s (c ∷ rest) h))))

lines-hunk_header : (raw : Text) (h : DiffHunk) → hunk_header raw ≡ some h → h.lines ≡ []
unfolding hunk_header
lines-hunk_header raw h e = ground arith

open_hunk-IsInOrder :
    (closed : List DiffHunk) (raw : Text) (h : DiffHunk)
    → hunk_header raw ≡ some h
    → All IsNumberedHunk closed
    → IsInOrder (open_hunk closed h)
open_hunk-IsInOrder closed raw h e all =
    let blank = lines-hunk_header raw h e in
    record {
      closed = all;
      current = subst (IsNumbered h.old_start h.new_start) (sym blank) tt;
      old_at = rw blank (omega arith);
      new_at = rw blank (omega arith);
    }

hunks_of-IsNumbered : (s : Cursor) → IsInOrder s → All IsNumberedHunk (hunks_of s)
hunks_of-IsNumbered s h =
    All-append IsNumberedHunk s.closed (s.current ∷ []) h.closed (h.current, tt)

abbrev IsInOrderOf : Option Cursor → Type 0
IsInOrderOf none = Unit
IsInOrderOf (some s) = IsInOrder s

next_cursor-IsInOrder :
    (o : Option Cursor) (raw : Text) (k : Option DiffHunk)
    → hunk_header raw ≡ k
    → IsInOrderOf o
    → IsInOrderOf (next_cursor o raw k)
unfolding next_cursor
next_cursor-IsInOrder none raw none e h = tt
next_cursor-IsInOrder none raw (some k) e h = open_hunk-IsInOrder [] raw k e tt
next_cursor-IsInOrder (some s) raw none e h = body_line-IsInOrder s raw h
next_cursor-IsInOrder (some s) raw (some k) e h =
    open_hunk-IsInOrder (hunks_of s) raw k e (hunks_of-IsNumbered s h)

parse_lines-IsInOrder :
    (o : Option Cursor) (raws : List Text) → IsInOrderOf o → IsInOrderOf (parse_lines o raws)
unfolding parse_lines
parse_lines-IsInOrder o [] h = h
parse_lines-IsInOrder o (raw ∷ rest) h =
    parse_lines-IsInOrder (parse_line o raw) rest
      (unfold parse_line in next_cursor-IsInOrder o raw (hunk_header raw) refl h)

all_hunks-IsNumbered : (o : Option Cursor) → IsInOrderOf o → All IsNumberedHunk (all_hunks o)
all_hunks-IsNumbered none h = tt
all_hunks-IsNumbered (some s) h = hunks_of-IsNumbered s h

-- In every hunk that the parser returns, for any patch text, the lines are numbered without gap or
-- repetition: from the header's old start over the context and deleted lines, and from its new start
-- over the context and added lines; an added line has no old number and a deleted one no new number.
pub parse_hunks-IsNumbered : (patch : Text) → All IsNumberedHunk (parse_hunks patch)
unfolding parse_hunks
parse_hunks-IsNumbered [] = tt
parse_hunks-IsNumbered (c ∷ s) =
    let raws = pop_last_empty (split_on 10 (c ∷ s)) in
    all_hunks-IsNumbered (parse_lines none raws) (parse_lines-IsInOrder none raws tt)
