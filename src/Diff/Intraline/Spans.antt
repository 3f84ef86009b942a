-- ===== src/Diff/Intraline/Spans.antt =====
-- intralineDiff: where the emphasis spans of a pair of lines lie.
use revu.Prelude.{
  ℕ, ◌+◌, ◌≤◌, ◌<◌, ◌≡◌, Bool, true, false, Option, none, some, List, [], ◌∷◌, length, Text,
  text_eq, arith, ltb, ◌==◌, ◌||◌, subst, if◌then◌else◌, Bool-cases, inl, inr, ltb→lt,
}
use revu.Diff.{WordSpan}
use revu.Diff.Intraline.{
  ChangeKind, removed, added, kept, Change, push_span, Sides, push_change, add_change, add_changes,
  no_changes, Spans, intraline_diff, spans_of, is_noise, intraline_max_length,
}

-- Non-empty spans from `lo` up to `hi`, with a character at least between two of them.
abbrev pub IsSpans : ℕ → ℕ → List WordSpan → Type 0
IsSpans lo hi [] = Unit
IsSpans lo hi (s ∷ ss) =
    (lo ≤ s.start) × (s.start < s.end) × (s.end ≤ hi) × IsSpans (s.end + 1) hi ss

IsSpans-le : (lo hi hi' : ℕ) (ss : List WordSpan) → hi ≤ hi' → IsSpans lo hi ss → IsSpans lo hi' ss
IsSpans-le lo hi hi' [] h k = tt
IsSpans-le lo hi hi' (s ∷ ss) h (a, b, c, k) =
    (a, b, omega arith, IsSpans-le (s.end + 1) hi hi' ss h k)

push_span-IsSpans :
    (lo at end : ℕ) (ss : List WordSpan)
    → lo ≤ at
    → at < end
    → IsSpans lo at ss
    → IsSpans lo end (push_span ss at end)
unfolding push_span
push_span-IsSpans lo at end [] h k i = omega arith
push_span-IsSpans lo at end (s ∷ []) h k i = elim (Bool-cases (s.end == at)) [
  | inl e ↦ rw e (ground arith, ground arith, ground arith, tt)
  | inr e ↦ rw e (ground arith, ground arith, ground arith, (ground arith, k, omega arith, tt))
]
push_span-IsSpans lo at end (s ∷ t ∷ ss) h k (a, b, c, i) =
    (a, b, omega arith, push_span-IsSpans (s.end + 1) at end (t ∷ ss) (omega (arith, i.0)) k i)

push_change-IsSpans :
    (pos len : ℕ) (ss : List WordSpan)
    → IsSpans 0 pos ss
    → IsSpans 0 (pos + len) (push_change ss pos len)
push_change-IsSpans pos len ss h = elim (Bool-cases (ltb 0 len)) [
  | inl e ↦
      rw e (push_span-IsSpans 0 pos (pos + len) ss (omega arith) (omega (arith, ltb→lt 0 len e)) h)
  | inr e ↦ rw e (IsSpans-le 0 pos (pos + len) ss (omega arith) h)
]

record IsEmphasis (s : Sides) : Type 0 where
  del_spans : IsSpans 0 s.del_pos s.del
  add_spans : IsSpans 0 s.add_pos s.add

add_change-IsEmphasis :
    (s : Sides) (k : ChangeKind) (len : ℕ) → IsEmphasis s → IsEmphasis (add_change s k len)
unfolding add_change
add_change-IsEmphasis s removed len h = record {
  del_spans = push_change-IsSpans s.del_pos len s.del h.del_spans;
  add_spans = h.add_spans;
}
add_change-IsEmphasis s added len h = record {
  del_spans = h.del_spans;
  add_spans = push_change-IsSpans s.add_pos len s.add h.add_spans;
}
add_change-IsEmphasis s kept len h = record {
  del_spans = IsSpans-le 0 s.del_pos (s.del_pos + len) s.del (omega arith) h.del_spans;
  add_spans = IsSpans-le 0 s.add_pos (s.add_pos + len) s.add (omega arith) h.add_spans;
}

-- The characters of each side that the changes account for.
abbrev pub del_width : ChangeKind → ℕ → ℕ
del_width added len = 0
del_width _ len = len

abbrev pub add_width : ChangeKind → ℕ → ℕ
add_width removed len = 0
add_width _ len = len

abbrev pub del_total : List Change → ℕ
del_total [] = 0
del_total (c ∷ cs) = del_width c.kind (length c.value) + del_total cs

abbrev pub add_total : List Change → ℕ
add_total [] = 0
add_total (c ∷ cs) = add_width c.kind (length c.value) + add_total cs

add_change_pos :
    (s : Sides) (k : ChangeKind) (len : ℕ)
    → ((add_change s k len).del_pos ≡ s.del_pos + del_width k len)
      × ((add_change s k len).add_pos ≡ s.add_pos + add_width k len)
unfolding add_change
add_change_pos s removed len = omega arith
add_change_pos s added len = omega arith
add_change_pos s kept len = omega arith

add_changes_lem :
    (s : Sides) (cs : List Change)
    → IsEmphasis s
    → IsEmphasis (add_changes s cs)
      × ((add_changes s cs).del_pos ≡ s.del_pos + del_total cs)
      × ((add_changes s cs).add_pos ≡ s.add_pos + add_total cs)
unfolding add_changes
add_changes_lem s [] h = (h, omega arith, omega arith)
add_changes_lem s (c ∷ cs) h =
    let s' = add_change s c.kind (length c.value) in
    let (is, d, a) = add_changes_lem s' cs (add_change-IsEmphasis s c.kind (length c.value) h) in
    let (d', a') = add_change_pos s c.kind (length c.value) in (is, omega arith, omega arith)

unless_noise :
    (noise : Bool) (x spans : Spans) → (if noise then none else some x) ≡ some spans → x ≡ spans
unless_noise true x spans e = cc
unless_noise false x spans e = cc

unless_same :
    (P : Spans → Type 0) (same long : Bool) (o : Option Spans) (spans : Spans)
    → (if same then some ([], []) else if long then none else o) ≡ some spans
    → P ([], [])
    → (o ≡ some spans → P spans)
    → P spans
unless_same P true long o spans e p k = let same : ([], []) ≡ spans = cc in subst P same p
unless_same P false true o spans e p k = cc
unless_same P false false o spans e p k = k e

-- With a word diff whose unchanged and removed parts have the length of the deleted line, and whose
-- unchanged and added parts have that of the added line, the spans that are returned are not empty,
-- in order, apart, and inside their lines.
pub intraline_diff-IsSpans :
    (diff_words : Text → Text → List Change) (del_text add_text : Text) (spans : Spans)
    → del_total (diff_words del_text add_text) ≡ length del_text
    → add_total (diff_words del_text add_text) ≡ length add_text
    → intraline_diff diff_words del_text add_text ≡ some spans
    → IsSpans 0 (length del_text) spans.0 × IsSpans 0 (length add_text) spans.1
unfolding intraline_diff
intraline_diff-IsSpans diff_words del_text add_text spans d a e =
    let AreSpans : Spans → Type 0 =
      λ x. IsSpans 0 (length del_text) x.0 × IsSpans 0 (length add_text) x.1 in
    let s = add_changes no_changes (diff_words del_text add_text) in
    let (is, del_end, add_end) =
      add_changes_lem no_changes (diff_words del_text add_text)
        record { del_spans = tt; add_spans = tt } in
    let found : AreSpans (s.del, s.add) = (
      subst (λ n. IsSpans 0 n s.del) (omega arith) is.del_spans,
      subst (λ n. IsSpans 0 n s.add) (omega arith) is.add_spans,
    ) in
    unless_same AreSpans (text_eq del_text add_text)
      (ltb intraline_max_length (length del_text) || ltb intraline_max_length (length add_text))
      (spans_of diff_words del_text add_text s) spans e (tt, tt)
      (λ e'.
        subst AreSpans
          (unless_noise
            (is_noise s.del_changed (length del_text) || is_noise s.add_changed (length add_text))
            (s.del, s.add) spans e')
          found)
