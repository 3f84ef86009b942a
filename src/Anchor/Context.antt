-- ===== src/Anchor/Context.antt =====
-- Context scores: what one matching neighbour is worth.
use revu.Prelude.{ℕ, ◌+◌, ◌-◌, ◌≤◌, ◌≡◌, refl, true, some, List, Text, text_eq_iff, arith, trim_end}
use revu.Api.{Anchor}
use revu.Anchor.{line_at, line_eq, context_round, context_score, nth_last}

pub line_eq_refl : (t : Text) → line_eq (some t) (some t) ≡ true
unfolding line_eq
line_eq_refl t = (text_eq_iff (trim_end t) (trim_end t)).1 refl

context_round-le :
    (a : Anchor) (lines : List Text) (line j score : ℕ) → score ≤ context_round a lines line j score
unfolding context_round
context_round-le a lines line j score = omega arith

module _ (a : Anchor) (lines : List Text) (line : ℕ) where
  later_rounds :
      (score : ℕ) → score ≤ context_round a lines line 3 (context_round a lines line 2 score)
  later_rounds score = omega (
    arith,
    context_round-le a lines line 2 score,
    context_round-le a lines line 3 (context_round a lines line 2 score),
  )

  -- The nearest line above scores, when it is the captured one.
  pub context_score-before :
      (t : Text)
      → line_at lines (line - 1) ≡ some t
      → nth_last a.context_before 1 ≡ some t
      → 2 ≤ context_score a lines line
  unfolding context_score context_round
  context_score-before t e f =
      let first : 3 ≤ context_round a lines line 1 0 = rw (e, f, line_eq_refl t) (omega arith) in
      omega (arith, later_rounds (context_round a lines line 1 0))

  -- So does the nearest line below.
  pub context_score-after :
      (t : Text)
      → line_at lines (line + 1) ≡ some t
      → line_at a.context_after 1 ≡ some t
      → 2 ≤ context_score a lines line
  unfolding context_score context_round
  context_score-after t e f =
      let first : 3 ≤ context_round a lines line 1 0 = rw (e, f, line_eq_refl t) (omega arith) in
      omega (arith, later_rounds (context_round a lines line 1 0))
