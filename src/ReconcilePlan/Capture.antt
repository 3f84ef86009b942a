-- ===== src/ReconcilePlan/Capture.antt =====
-- captureAnchor and classifyAnchor: what the classifier makes of a captured anchor.
use revu.Prelude.{
  ℕ, zero, suc, ◌+◌, ◌-◌, ◌≤◌, ◌<◌, ◌≡◌, refl, ap, ◌∙◌, ◌⊎◌, inl, inr, true, Option, some, List,
  Text, length, get_elem?, get_elem?-drop, get_elem?-take, get_elem?-is_some, length-take,
  length-drop, slice, drop, arith, leb,
}
use native.Mathlib.Decide.{dec_lt}
use revu.Api.{PendingComment, clean}
use revu.Anchor.{line_at, context_score, nth_last, classify_anchor, present}
use revu.Anchor.Context.{line_eq_refl, context_score-before, context_score-after}
use revu.Anchor.Drift.{holds_anchor, IsAlone, classify_anchor-eq-clean_iff}
use revu.ReconcilePlan.{capture_anchor}

pub line_at-is_some :
    (lines : List Text) (k : ℕ) → 1 ≤ k → k ≤ length lines → (t : Text) × (line_at lines k ≡ some t)
line_at-is_some lines zero l u = absurd (omega arith)
line_at-is_some lines (suc i) l u = get_elem?-is_some i lines (omega arith)

nth_last-one : (xs : List Text) (k : ℕ) → length xs ≡ suc k → nth_last xs 1 ≡ get_elem? xs k
nth_last-one xs k e =
    let n : suc k - 1 ≡ k = omega arith in
    let b : leb 1 (suc k) ≡ true = ground arith in rw (e, n, b)

get_elem?-slice :
    (lines : List Text) (from to k : ℕ)
    → from + k < to
    → get_elem? (slice from to lines) k ≡ get_elem? lines (from + k)
get_elem?-slice lines from to k h =
    get_elem?-take (to - from) k (drop from lines) (omega arith) ∙ get_elem?-drop from k lines

-- The last captured line above is the line above.
nth_last-slice :
    (lines : List Text) (i : ℕ)
    → suc (suc i) ≤ length lines
    → nth_last (slice (suc (suc i) - 4) (suc (suc i) - 1) lines) 1 ≡ get_elem? lines i
nth_last-slice lines i u =
    let from : ℕ = suc (suc i) - 4 in
    let above : from + (i - from) ≡ i = omega arith in
    let size : length (slice from (suc (suc i) - 1) lines) ≡ suc (i - from) =
      omega
        (arith, length-take (suc (suc i) - 1 - from) (drop from lines), length-drop from lines) in
    nth_last-one (slice from (suc (suc i) - 1) lines) (i - from) size
    ∙ get_elem?-slice lines from (suc (suc i) - 1) (i - from) (omega arith)
    ∙ ap (get_elem? lines) above

-- The first captured line below is the line below.
first-slice :
    (lines : List Text) (line : ℕ) → line_at (slice line (line + 3) lines) 1 ≡ get_elem? lines line
first-slice lines line =
    get_elem?-slice lines line (line + 3) 0 (omega arith) ∙ ap (get_elem? lines) (omega arith)

module _ (c : PendingComment) (lines : List Text) (start : Option ℕ)
    (captured : c.anchor ≡ capture_anchor lines c.line start) (low : 1 ≤ c.line)
    (high : c.line ≤ length lines) where
  own_line : holds_anchor c lines c.line ≡ true
  unfolding capture_anchor
  own_line = let (t, e) = line_at-is_some lines c.line low high in rw (captured, e) (line_eq_refl t)

  scored_by_above : (i : ℕ) → c.line ≡ suc (suc i) → 2 ≤ context_score c.anchor lines c.line
  unfolding capture_anchor
  scored_by_above i e =
      let (t, at) = get_elem?-is_some i lines (omega arith) in
      let before : suc (suc i) - 1 ≡ suc i = omega arith in
      context_score-before c.anchor lines c.line t (rw (e, before) at)
        (rw (captured, e) (nth_last-slice lines i (omega arith) ∙ at))

  scored_by_below : c.line < length lines → 2 ≤ context_score c.anchor lines c.line
  unfolding capture_anchor
  scored_by_below h =
      let (t, at) = get_elem?-is_some c.line lines h in
      let next : c.line + 1 ≡ suc c.line = omega arith in
      context_score-after c.anchor lines c.line t (rw next at)
        (rw captured (first-slice lines c.line ∙ at))

  -- With neither neighbour the file has one line.
  scored_or_alone :
      (n : ℕ) → c.line ≡ n → (2 ≤ context_score c.anchor lines c.line) ⊎ IsAlone c lines
  scored_or_alone zero e = absurd (omega arith)
  scored_or_alone (suc (suc i)) e = inl (scored_by_above i e)
  scored_or_alone (suc zero) e = elim (dec_lt c.line (length lines)) [
    | yes h ↦ inl (scored_by_below h)
    | no h ↦ inr (λ k inside x. omega arith)
  ]

  -- A comment whose anchor was captured from a file at the comment's own line is classified as clean
  -- against that file, whatever the file holds.
  pub classify-capture_anchor : classify_anchor c (some lines) present ≡ clean c
  classify-capture_anchor =
      (classify_anchor-eq-clean_iff c lines).1 (own_line, scored_or_alone c.line refl)
