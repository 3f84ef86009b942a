-- ===== src/ReconcilePlan/Head.antt =====
-- The head that a draft moves to.
use revu.Prelude.{
  ◌≡◌, refl, sym, ap, ◌∙◌, inl, inr, Option, none, some, [], ◌∷◌, Text, Bool-cases, ◌≢◌, ◌↔◌, ◌++◌,
  ends_with, ends_with_iff,
}
use revu.ReconcilePlan.{DraftHead, coherent_draft_head, compare_separator}

no_blank_key : (m s key : Text) → some [] ≡ some key → key ≡ m ++ (compare_separator ++ s) → ⊥
no_blank_key [] s key e f = cc
no_blank_key (x ∷ m) s key e f = cc

pair_lem :
    (head_sha key : Text) (h : DraftHead)
    → h.head_sha ≡ head_sha
    → some key ≡ some h.compare_key
    → some (record { head_sha = head_sha; compare_key = key }) ≡ some h
pair_lem head_sha key h e f =
    let g : key ≡ h.compare_key = cc in
    ap some (λ i. record { head_sha = sym e i; compare_key = g i })

-- The draft moves to a head exactly when the head is not empty and the compare key on hand is some
-- merge base, the separator and that head; it then moves to that head with that key.
pub coherent_draft_head_iff :
    (head_sha : Text) (key : Option Text) (h : DraftHead)
    → (coherent_draft_head head_sha key ≡ some h) ↔ (
        (head_sha ≢ [])
        × (h.head_sha ≡ head_sha)
        × (key ≡ some h.compare_key)
        × ((merge_base : Text) × (h.compare_key ≡ merge_base ++ (compare_separator ++ head_sha))))
unfolding coherent_draft_head
coherent_draft_head_iff head_sha none h = (λ e. cc, λ (n, e, f, w). cc)
coherent_draft_head_iff [] (some key) h = (λ e. cc, λ (n, e, f, w). absurd (n refl))
coherent_draft_head_iff (c ∷ s) (some []) h =
    (λ e. cc, λ (n, e, f, (m, g)). absurd (no_blank_key m (c ∷ s) h.compare_key f g))
coherent_draft_head_iff (c ∷ s) (some (k ∷ ks)) h =
    elim (Bool-cases (ends_with (k ∷ ks) (compare_separator ++ c ∷ s))) [
      | inl e ↦ rw e (
        λ eq.
            let (m, g) = (ends_with_iff (k ∷ ks) (compare_separator ++ c ∷ s)).0 e in
            let same : h.compare_key ≡ k ∷ ks = cc in (λ f. cc, cc, cc, (m, same ∙ g)),
        λ (n, p, q, w). pair_lem (c ∷ s) (k ∷ ks) h p q,
      )
      | inr e ↦ rw e (
        λ eq. cc,
        λ (n, p, q, (m, g)).
            let same : k ∷ ks ≡ h.compare_key = cc in
            cc ((ends_with_iff (k ∷ ks) (compare_separator ++ c ∷ s)).1 (m, same ∙ g), e),
      )
    ]
