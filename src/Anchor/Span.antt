-- ===== src/Anchor/Span.antt =====
-- The start line of a ranged comment after a drift (`resolveRangedStart`).
use revu.Prelude.{
  ℕ, ◌+◌, ◌≤◌, ◌≡◌, refl, Bool, true, false, Option, none, some, List, Text, arith, Bool-cases, ◌<◌,
  ◌⊎◌, inl, inr,
}
use revu.Api.{PendingComment}
use revu.Anchor.{
  dist, line_at, line_eq, Start, start_search_radius, rigid_start, nearest_from, found_start,
  search_start, resolve_start_text, resolve_start_line, resolve_ranged_start, window_lo,
  window_rounds,
}
use revu.Anchor.Scan.{IsNearestOf, nearest_from-IsNearestOf}

-- Line k lies in the window around the rigid shift `rigid` of the start, in a span that ends at
-- `new_line`.
abbrev pub InWindow : ℕ → ℕ → ℕ → Type 0
InWindow new_line rigid k =
    (1 ≤ k) × (k ≤ new_line) × (k ≤ rigid + start_search_radius) × (rigid ≤ k + start_search_radius)

-- What a resolved start says of the file, when the start's text was captured: the span ends at
-- `new_line`, the rigid shift put its start at `rigid`.
pub record IsHonest (lines : List Text) (text : Text) (new_line rigid : ℕ) (s : Start)
    : Type 0 where
  pub line : ℕ
  pub given : s.new_start_line ≡ some line
  pub at : InWindow new_line rigid line
  pub confirmed :
      s.uncertain ≡ false
      → (line_eq (line_at lines line) (some text) ≡ true)
        × ((k : ℕ)
            → InWindow new_line rigid k
            → line_eq (line_at lines k) (some text) ≡ true
            → (dist line rigid < dist k rigid) ⊎ ((dist line rigid ≡ dist k rigid) × (line ≤ k)))
  pub doubted :
      s.uncertain ≡ true
      → (line ≡ rigid)
        × ((k : ℕ) → InWindow new_line rigid k → line_eq (line_at lines k) (some text) ≡ false)

module _ (lines : List Text) (text : Text) (new_line rigid : ℕ) where
  abbrev in_span : ℕ → Bool
  in_span i = line_eq (line_at lines i) (some text)

  abbrev span_lo : ℕ
  span_lo = window_lo start_search_radius rigid

  abbrev span_rounds : ℕ
  span_rounds = window_rounds start_search_radius new_line rigid

  found_start-IsHonest :
      (found : Option ℕ)
      → 1 ≤ rigid
      → rigid ≤ new_line
      → IsNearestOf in_span rigid span_lo (span_lo + span_rounds) found
      → IsHonest lines text new_line rigid (found_start rigid found)
  found_start-IsHonest none low high h = record {
    line = rigid;
    given = refl;
    at = (low, high, omega arith, omega arith);
    confirmed = λ u. ground arith;
    doubted = λ u. (refl, λ k (a, b, c, d). h k (omega arith) (omega arith));
  }
  found_start-IsHonest (some i) low high h = record {
    line = i;
    given = refl;
    at = (
      omega (arith, h.from_lo),
      omega (arith, h.before_i),
      omega (arith, h.before_i),
      omega (arith, h.from_lo),
    );
    confirmed = λ u. (h.is_hit, λ k (a, b, c, d) hit. h.nearest k (omega arith) (omega arith) hit);
    doubted = λ u. ground arith;
  }

  search_start-IsHonest :
      1 ≤ rigid
      → rigid ≤ new_line
      → IsHonest lines text new_line rigid (search_start lines text new_line rigid)
  unfolding search_start
  search_start-IsHonest low high =
      found_start-IsHonest (nearest_from in_span rigid span_rounds span_lo none) low high (
        nearest_from-IsNearestOf in_span rigid span_rounds span_lo span_lo (span_lo + span_rounds)
          none refl (omega arith) (λ k l u. absurd (omega arith)))

  resolve_start_text-IsHonest :
      1 ≤ rigid
      → rigid ≤ new_line
      → IsHonest lines text new_line rigid (resolve_start_text lines (some text) new_line rigid)
  unfolding resolve_start_text
  resolve_start_text-IsHonest low high =
      elim (Bool-cases (line_eq (line_at lines rigid) (some text))) [
        | inl e ↦ rw e (record {
          line = rigid;
          given = refl;
          at = (low, high, omega arith, omega arith);
          confirmed = λ u. (e, λ k w hit. ground arith);
          doubted = λ u. ground arith;
        })
        | inr e ↦ rw e (search_start-IsHonest low high)
      ]

-- For a ranged comment with a captured start text, re-anchored to end at line `new_line` ≥ 1: a start
-- is given, and it lies in the window around the rigid shift and not after the end. It is
-- unflagged only if its line holds the captured text and every other line of the window that holds
-- it is farther from the rigid shift, or as far and later; it is flagged as uncertain only if it is the rigid shift and no line
-- of the window holds that text.
pub resolve_ranged_start-IsHonest :
    (c : PendingComment) (lines : List Text) (text : Text) (start new_line : ℕ)
    → c.start_line ≡ some start
    → c.anchor.start_line_text ≡ some text
    → 1 ≤ new_line
    → IsHonest lines text new_line
        (rigid_start start c.line new_line)
        (resolve_ranged_start c lines new_line)
unfolding resolve_ranged_start
resolve_ranged_start-IsHonest c lines text start new_line e f h =
    rw (e, resolve_start_line, f)
      (resolve_start_text-IsHonest lines text new_line (rigid_start start c.line new_line)
        (omega arith) (omega arith))

-- A comment on a single line keeps no start, and is never flagged; with no captured start text the
-- start is the rigid shift, unflagged.
pub resolve_ranged_start_plain :
    (c : PendingComment) (lines : List Text) (new_line : ℕ)
    → (c.start_line ≡ none
        → resolve_ranged_start c lines new_line
          ≡ record { new_start_line = none; uncertain = false })
      × ((start : ℕ)
          → c.start_line ≡ some start
          → c.anchor.start_line_text ≡ none
          → resolve_ranged_start c lines new_line ≡ record {
            new_start_line = some (rigid_start start c.line new_line);
            uncertain = false;
          })
unfolding resolve_ranged_start
resolve_ranged_start_plain c lines new_line = (
  λ e. rw (e, resolve_start_line) refl,
  λ start e f. rw (e, resolve_start_line, f, resolve_start_text) refl,
)
