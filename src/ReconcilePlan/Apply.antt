-- ===== src/ReconcilePlan/Apply.antt =====
-- What a plan keeps, moves and removes.
use revu.Prelude.{
  ℕ, ◌+◌, ◌≤◌, ◌≡◌, refl, ap, ap₂, subst, ◌⊎◌, inl, inr, not, Bool, true, false, Option, none, some,
  List, [], ◌∷◌, map, filter, length, All, Contains, Contains-All, All-mono, Text, arith,
}
use revu.Prelude.Results.{ok, >>=-eq-ok}
use revu.Api.{Side, PendingComment, AnchorResult, clean}
use revu.Anchor.{classify_anchor, present}
use revu.ReconcilePlan.{
  Decision, keep, accept, drop, reanchor, PlanInput, ReconcilePlan, Fate, carried, rewritten,
  removed, Lists, result_for, lines_for, move_to, apply_decision, plan_comments, add_fate, moved,
  shifted_start, plan_reconcile_apply, capture_anchor, accepted_line, accepted_start,
}
use revu.ReconcilePlan.Capture.{classify-capture_anchor}

-- What a human wrote and what names the comment: all that a plan may not change.
abbrev pub Written : Type 0
Written = Text × Text × Side × Option Side × Text × Text

abbrev pub written : PendingComment → Written
written c = (c.key, c.path, c.side, c.start_side, c.body, c.created_at)

abbrev pub is_dropped_by : Option AnchorResult → Option Decision → Bool
is_dropped_by none d = false
is_dropped_by (some r) none = false
is_dropped_by (some r) (some drop) = true
is_dropped_by (some r) (some _) = false

abbrev pub is_moved_by : Option AnchorResult → Option Decision → Bool
is_moved_by none d = false
is_moved_by (some r) none = false
is_moved_by (some r) (some accept) = true
is_moved_by (some r) (some (reanchor line)) = true
is_moved_by (some r) (some _) = false

module _ {E : Type 0} (input : PlanInput E) where
  -- The human chose `drop` for a comment of the report.
  abbrev pub is_dropped : PendingComment → Bool
  is_dropped c = is_dropped_by (result_for input.results c) (input.decisions c.key)

  -- The human chose `accept` or `reanchor` for a comment of the report.
  abbrev pub is_moved : PendingComment → Bool
  is_moved c = is_moved_by (result_for input.results c) (input.decisions c.key)

  -- The comment's anchor is captured from its own blob, at its own lines.
  abbrev pub IsCaptured : PendingComment → Type 0
  IsCaptured x =
      (lines : List Text) × (lines_for input x ≡ ok lines)
      × (x.anchor ≡ capture_anchor lines x.line x.start_line)

  abbrev IsFate : PendingComment → Bool → Bool → Fate → Type 0
  IsFate c dropped moved (carried x) = (x ≡ c) × (dropped ≡ false) × (moved ≡ false)
  IsFate c dropped moved (rewritten x) =
      (written x ≡ written c) × (dropped ≡ false) × (moved ≡ true) × IsCaptured x
  IsFate c dropped moved (removed key) = (key ≡ c.key) × (dropped ≡ true) × (moved ≡ false)

  move_to-IsFate :
      (c : PendingComment) (line : ℕ) (start : Option ℕ) (fate : Fate)
      → move_to input c line start ≡ ok fate
      → IsFate c false true fate
  unfolding move_to
  move_to-IsFate c line start fate h =
      let (lines, e, f) = >>=-eq-ok (lines_for input c) _ h in
      let same : rewritten (moved input c lines line start) ≡ fate = cc in
      subst (IsFate c false true) same (refl, refl, refl, (lines, e, refl))

  apply_decision-IsFate :
      (c : PendingComment) (d : Option Decision) (r : Option AnchorResult) (fate : Fate)
      → apply_decision input c d r ≡ ok fate
      → IsFate c (is_dropped_by r d) (is_moved_by r d) fate
  unfolding apply_decision
  apply_decision-IsFate c none none fate h =
      let same : carried c ≡ fate = cc in subst (IsFate c false false) same (refl, refl, refl)
  apply_decision-IsFate c none (some r) fate h =
      let same : carried c ≡ fate = cc in subst (IsFate c false false) same (refl, refl, refl)
  apply_decision-IsFate c (some d) none fate h =
      let same : carried c ≡ fate = cc in subst (IsFate c false false) same (refl, refl, refl)
  apply_decision-IsFate c (some drop) (some r) fate h =
      let same : removed c.key ≡ fate = cc in subst (IsFate c true false) same (refl, refl, refl)
  apply_decision-IsFate c (some keep) (some r) fate h =
      let same : carried c ≡ fate = cc in subst (IsFate c false false) same (refl, refl, refl)
  apply_decision-IsFate c (some accept) (some r) fate h =
      move_to-IsFate c (accepted_line c r) (accepted_start c r) fate h
  apply_decision-IsFate c (some (reanchor line)) (some r) fate h =
      move_to-IsFate c line (shifted_start c c.start_line line) fate h

  abbrev IsOf : List PendingComment → List PendingComment → PendingComment → Type 0
  IsOf cs moved x = Contains x cs ⊎ Contains x moved

  -- The lists that the loop builds, against the comments that it went through.
  record IsPlanOf (cs : List PendingComment) (l : Lists input) : Type 0 where
    updated_eq : map written l.updated ≡ map written (filter (λ c. not (is_dropped c)) cs)
    reanchored_eq : map written l.reanchored ≡ map written (filter is_moved cs)
    removed_eq : l.removed_keys ≡ map (λ c. c.key) (filter is_dropped cs)
    count : length l.updated + length l.removed_keys ≡ length cs
    captured : All IsCaptured l.reanchored
    accounted : All (IsOf cs l.reanchored) l.updated

  add_fate-IsPlanOf :
      (c : PendingComment) (cs : List PendingComment) (fate : Fate) (l : Lists input)
      → IsFate c (is_dropped c) (is_moved c) fate
      → IsPlanOf cs l
      → IsPlanOf (c ∷ cs) (add_fate input fate l)
  add_fate-IsPlanOf c cs (carried x) l f p = record {
    updated_eq = rw f.1 (ap₂ ◌∷◌ (ap written f.0) p.updated_eq);
    reanchored_eq = rw f.2 p.reanchored_eq;
    removed_eq = rw f.1 p.removed_eq;
    count = omega (arith, p.count);
    captured = p.captured;
    accounted = (
      inl (inl f.0),
      All-mono (IsOf cs l.reanchored) (IsOf (c ∷ cs) l.reanchored)
          (λ y. elim [ inl m ↦ inl (inr m) | inr m ↦ inr m ]) l.updated p.accounted,
    );
  }
  add_fate-IsPlanOf c cs (rewritten x) l f p = record {
    updated_eq = rw f.1 (ap₂ ◌∷◌ f.0 p.updated_eq);
    reanchored_eq = rw f.2 (ap₂ ◌∷◌ f.0 p.reanchored_eq);
    removed_eq = rw f.1 p.removed_eq;
    count = omega (arith, p.count);
    captured = (f.3, p.captured);
    accounted = (
      inr (inl refl),
      All-mono (IsOf cs l.reanchored) (IsOf (c ∷ cs) (x ∷ l.reanchored))
          (λ y. elim [ inl m ↦ inl (inr m) | inr m ↦ inr (inr m) ]) l.updated p.accounted,
    );
  }
  add_fate-IsPlanOf c cs (removed key) l f p = record {
    updated_eq = rw f.1 p.updated_eq;
    reanchored_eq = rw f.2 p.reanchored_eq;
    removed_eq = rw f.1 (ap₂ ◌∷◌ f.0 p.removed_eq);
    count = omega (arith, p.count);
    captured = p.captured;
    accounted =
        All-mono (IsOf cs l.reanchored) (IsOf (c ∷ cs) l.reanchored)
          (λ y. elim [ inl m ↦ inl (inr m) | inr m ↦ inr m ]) l.updated p.accounted;
  }

  plan_comments-IsPlanOf :
      (cs : List PendingComment) (l : Lists input) → plan_comments input cs ≡ ok l → IsPlanOf cs l
  unfolding plan_comments
  plan_comments-IsPlanOf [] l h =
      let same : record { updated = []; reanchored = []; removed_keys = [] } ≡ l = cc in
      subst (IsPlanOf []) same (record {
        updated_eq = refl;
        reanchored_eq = refl;
        removed_eq = refl;
        count = omega arith;
        captured = tt;
        accounted = tt;
      })
  plan_comments-IsPlanOf (c ∷ cs) l h =
      let (fate, e, h') =
        >>=-eq-ok (apply_decision input c (input.decisions c.key) (result_for input.results c)) _
          h in
      let (rest, e', h'') = >>=-eq-ok (plan_comments input cs) _ h' in
      let same : add_fate input fate rest ≡ l = cc in
      subst (IsPlanOf (c ∷ cs)) same (
        add_fate-IsPlanOf c cs fate rest
          (apply_decision-IsFate c (input.decisions c.key) (result_for input.results c) fate e)
          (plan_comments-IsPlanOf cs rest e'))

  plan-lists :
      {p : ReconcilePlan}
      → plan_reconcile_apply input ≡ ok p
      → (l : Lists input) × IsPlanOf input.draft.comments l
        × (p.updated ≡ l.updated)
        × (p.reanchored ≡ l.reanchored)
        × (p.removed_keys ≡ l.removed_keys)
        × (p.kept ≡ length l.updated)
        × (p.dropped ≡ length l.removed_keys)
  unfolding plan_reconcile_apply
  plan-lists {p} h =
      let (l, e, f) = >>=-eq-ok (plan_comments input input.draft.comments) _ h in
      (l, plan_comments-IsPlanOf input.draft.comments l e, cc, cc, cc, cc, cc)

-- A plan that returns keeps the written part of every comment (key, path, sides, body, creation
-- time) that the human did not drop, in the draft's order, and removes exactly the keys of the
-- dropped ones; `kept` and `dropped` are the two lengths and add up to the number of comments.
pub plan_reconcile_apply_keeps :
    {E : Type 0} (input : PlanInput E) (p : ReconcilePlan)
    → plan_reconcile_apply input ≡ ok p
    → (map written p.updated
        ≡ map written (filter (λ c. not (is_dropped input c)) input.draft.comments))
      × (p.removed_keys ≡ map (λ c. c.key) (filter (is_dropped input) input.draft.comments))
      × (p.kept ≡ length p.updated)
      × (p.dropped ≡ length p.removed_keys)
      × (p.kept + p.dropped ≡ length input.draft.comments)
plan_reconcile_apply_keeps input p h =
    let (l, is, e, f, g, k, d) = plan-lists input h in
    (rw e is.updated_eq, rw g is.removed_eq, rw e k, rw g d, omega (arith, is.count))

-- A plan that returns lists as re-anchored exactly the comments that the human accepted or
-- re-anchored, in the draft's order, and every comment that it submits is one of the draft,
-- unchanged in every field, or one of those.
pub plan_reconcile_apply-reanchored :
    {E : Type 0} (input : PlanInput E) (p : ReconcilePlan)
    → plan_reconcile_apply input ≡ ok p
    → (map written p.reanchored ≡ map written (filter (is_moved input) input.draft.comments))
      × All (λ x. Contains x input.draft.comments ⊎ Contains x p.reanchored) p.updated
plan_reconcile_apply-reanchored input p h =
    let (l, is, e, f, g, k, d) = plan-lists input h in
    (rw f is.reanchored_eq, rw (e, f) is.accounted)

-- After a plan, each comment that it re-anchored inside its file is found clean in that file: with
-- the lines that the plan captured it from, the classifier answers `clean` for it.
pub reanchored_clean :
    {E : Type 0} (input : PlanInput E) (p : ReconcilePlan) (x : PendingComment) (lines : List Text)
    → plan_reconcile_apply input ≡ ok p
    → Contains x p.reanchored
    → lines_for input x ≡ ok lines
    → 1 ≤ x.line
    → x.line ≤ length lines
    → classify_anchor x (some lines) present ≡ clean x
reanchored_clean input p x lines h m e low high =
    let (l, is, _, f, _, _, _) = plan-lists input h in
    let all : All (IsCaptured input) p.reanchored = rw f is.captured in
    let (lines', e', captured) = Contains-All (IsCaptured input) p.reanchored all m in
    let same : lines' ≡ lines = cc in
    classify-capture_anchor x lines x.start_line (rw (← same) captured) low high
