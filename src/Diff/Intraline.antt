-- ===== src/Diff/Intraline.antt =====
-- diff.ts, `intralineDiff`: emphasis spans of a deleted line paired with an added one. The word diff
-- of the package `diff` is a parameter; the ratio test is on the numbers that the quotient stands
-- for, `changed / length > 7 / 10`.
pub mod Spans
mod Tests
use revu.Prelude.{
  ℕ, ◌+◌, ◌*◌, ltb, if◌then◌else◌, ◌==◌, ◌||◌, Bool, true, false, Option, none, some, List, [], ◌∷◌,
  length, Text, text_eq,
}
use revu.Diff.{WordSpan}

pub data ChangeKind : Type 0 where
  removed added kept : ChangeKind

pub record Change : Type 0 where
  pub kind : ChangeKind
  pub value : Text

abbrev pub intraline_max_length : ℕ
intraline_max_length = 10000

-- The last span grows when it ends where the new one starts.
pub push_span : List WordSpan → ℕ → ℕ → List WordSpan
push_span [] start end = record { start = start; end = end } ∷ []
push_span (s ∷ []) start end =
    if s.end == start
    then record s { end = end } ∷ []
    else s ∷ record { start = start; end = end } ∷ []
push_span (s ∷ t ∷ ss) start end = s ∷ push_span (t ∷ ss) start end

pub record Sides : Type 0 where
  pub del : List WordSpan
  pub add : List WordSpan
  pub del_pos : ℕ
  pub add_pos : ℕ
  pub del_changed : ℕ
  pub add_changed : ℕ

-- if (len > 0) pushSpan(spans, pos, pos + len)
abbrev pub push_change : List WordSpan → ℕ → ℕ → List WordSpan
push_change spans pos len = if ltb 0 len then push_span spans pos (pos + len) else spans

-- One round of the loop over the changes.
pub add_change : Sides → ChangeKind → ℕ → Sides
unfolding push_span
add_change s removed len = record s {
  del = push_change s.del s.del_pos len;
  del_pos = s.del_pos + len;
  del_changed = s.del_changed + len;
}
add_change s added len = record s {
  add = push_change s.add s.add_pos len;
  add_pos = s.add_pos + len;
  add_changed = s.add_changed + len;
}
add_change s kept len = record s { del_pos = s.del_pos + len; add_pos = s.add_pos + len }

pub add_changes : Sides → List Change → Sides
unfolding add_change
add_changes s [] = s
add_changes s (c ∷ cs) = add_changes (add_change s c.kind (length c.value)) cs

abbrev pub no_changes : Sides
no_changes = record {
  del = [];
  add = [];
  del_pos = 0;
  add_pos = 0;
  del_changed = 0;
  add_changed = 0;
}

-- changed / length > 0.7, and false for an empty line
abbrev is_noise : ℕ → ℕ → Bool
is_noise changed len = if len == 0 then false else ltb (7 * len) (10 * changed)

abbrev pub Spans : Type 0
Spans = List WordSpan × List WordSpan

module _ (diff_words : Text → Text → List Change) where
  abbrev spans_of : Text → Text → Sides → Option Spans
  spans_of del_text add_text s =
      if is_noise s.del_changed (length del_text) || is_noise s.add_changed (length add_text)
      then none
      else some (s.del, s.add)

  pub intraline_diff : Text → Text → Option Spans
  unfolding add_changes
  intraline_diff del_text add_text =
      if text_eq del_text add_text
      then some ([], [])
      else if ltb intraline_max_length (length del_text)
          || ltb intraline_max_length (length add_text)
      then none
      else spans_of del_text add_text (add_changes no_changes (diff_words del_text add_text))
