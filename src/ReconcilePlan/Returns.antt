-- ===== src/ReconcilePlan/Returns.antt =====
-- planReconcileApply: when it returns, and which content it reads.
use revu.Prelude.{
  ℕ, ◌≡◌, refl, ◌↔◌, Bool, true, false, Bool-cases, inl, inr, Option, none, some, List, [], ◌∷◌,
  All, filter, Text,
}
use revu.Prelude.Results.{Result, ok, >>=-eq-ok, >>=-ok}
use revu.Api.{PendingComment, AnchorResult}
use revu.Anchor.{select_anchor_blob_sha}
use revu.ReconcilePlan.{
  Decision, keep, accept, drop, reanchor, PlanInput, carried, rewritten, removed, result_for,
  lines_for, move_to, apply_decision, fetch_lines, entry_of, lines_or_none, plan_comments, add_fate,
  moved, shifted_start, plan_reconcile_apply, accepted_line, accepted_start,
}
use revu.ReconcilePlan.Apply.{is_moved, is_moved_by}

abbrev pub Returns {ℓ κ} : {E : Type κ} {A : Type ℓ} → Result E A → Type (ℓ ⊔ κ)
Returns run = (value : _) × (run ≡ ok value)

module _ {E : Type 0} (input : PlanInput E) where
  abbrev IsFound : Option Text → Type 0
  IsFound none = Unit
  IsFound (some sha) = Returns (input.resolve_lines sha)

  -- The resolver answers for the content that the comment is anchored against, if there is any.
  abbrev pub IsResolved : PendingComment → Type 0
  IsResolved c = IsFound (select_anchor_blob_sha (entry_of input.blob_index c.path) c.side)

  fetch_lines_iff : (sha : Option Text) → Returns (fetch_lines input sha) ↔ IsFound sha
  fetch_lines_iff none = (λ r. tt, λ h. ([], refl))
  fetch_lines_iff (some sha) = (
    λ (lines, r).
        let (found, q, out) =
          >>=-eq-ok (input.resolve_lines sha) (λ found. ok (lines_or_none found)) r in
        (found, q),
    λ (found, q). (lines_or_none found, rw q),
  )

  move_to_iff :
      (c : PendingComment) (line : ℕ) (start : Option ℕ)
      → Returns (move_to input c line start) ↔ IsResolved c
  unfolding move_to
  move_to_iff c line start =
      let fetched =
        fetch_lines_iff (select_anchor_blob_sha (entry_of input.blob_index c.path) c.side) in
      (
        λ (fate, r).
            let (lines, q, out) =
              >>=-eq-ok (lines_for input c)
                (λ lines. ok (rewritten (moved input c lines line start))) r in
            fetched.0 (lines, q),
        λ h.
            let (lines, q) = fetched.1 h in
            (
              rewritten (moved input c lines line start),
              >>=-ok (lines_for input c) (λ lines. ok (rewritten (moved input c lines line start)))
                  q refl,
            ),
      )

  abbrev IsNeeded : Bool → PendingComment → Type 0
  IsNeeded true c = IsResolved c
  IsNeeded false c = Unit

  apply_decision_iff :
      (c : PendingComment) (d : Option Decision) (r : Option AnchorResult)
      → Returns (apply_decision input c d r) ↔ IsNeeded (is_moved_by r d) c
  unfolding apply_decision
  apply_decision_iff c none none = (λ _. tt, λ _. (carried c, refl))
  apply_decision_iff c none (some r) = (λ _. tt, λ _. (carried c, refl))
  apply_decision_iff c (some d) none = (λ _. tt, λ _. (carried c, refl))
  apply_decision_iff c (some drop) (some r) = (λ _. tt, λ _. (removed c.key, refl))
  apply_decision_iff c (some keep) (some r) = (λ _. tt, λ _. (carried c, refl))
  apply_decision_iff c (some accept) (some r) =
      move_to_iff c (accepted_line c r) (accepted_start c r)
  apply_decision_iff c (some (reanchor line)) (some r) =
      move_to_iff c line (shifted_start c c.start_line line)

  IsNeeded-filter :
      (c : PendingComment) (cs : List PendingComment)
      → (IsNeeded (is_moved input c) c × All IsResolved (filter (is_moved input) cs))
        ↔ All IsResolved (filter (is_moved input) (c ∷ cs))
  IsNeeded-filter c cs = elim (Bool-cases (is_moved input c)) [
    | inl e ↦ rw e (λ h. h, λ h. h)
    | inr e ↦ rw e (λ h. h.1, λ h. (tt, h))
  ]

  plan_comments_iff :
      (cs : List PendingComment)
      → Returns (plan_comments input cs) ↔ All IsResolved (filter (is_moved input) cs)
  unfolding plan_comments
  plan_comments_iff [] =
      (λ _. tt, λ _. (record { updated = []; reanchored = []; removed_keys = [] }, refl))
  plan_comments_iff (c ∷ cs) =
      let decision = input.decisions c.key in
      let result = result_for input.results c in
      let this = apply_decision_iff c decision result in
      let others = plan_comments_iff cs in
      let needed = IsNeeded-filter c cs in
      (
        λ (l, r).
            let (fate, q, next) = >>=-eq-ok (apply_decision input c decision result) _ r in
            let (rest, q', out) = >>=-eq-ok (plan_comments input cs) _ next in
            needed.0 (this.0 (fate, q), others.0 (rest, q')),
        λ h.
            let (own, k) = needed.1 h in
            let (fate, q) = this.1 own in
            let (rest, q') = others.1 k in (add_fate input fate rest, rw (q, q')),
      )

  -- The plan returns exactly when the resolver answers for the content of each comment that the
  -- human accepted or re-anchored; no answer is needed for the other comments.
  pub plan_reconcile_apply-Returns_iff :
      Returns (plan_reconcile_apply input)
      ↔ All IsResolved (filter (is_moved input) input.draft.comments)
  unfolding plan_reconcile_apply
  plan_reconcile_apply-Returns_iff =
      let all = plan_comments_iff input.draft.comments in
      (
        λ (p, r).
            let (l, q, out) = >>=-eq-ok (plan_comments input input.draft.comments) _ r in
            all.0 (l, q),
        λ h.
            let (l, q) = all.1 h in (_, >>=-ok (plan_comments input input.draft.comments) _ q refl),
      )
