-- ===== src/Retention/Refs/Prefix.antt =====
-- Which refs `dropPinnedRefs` reaches.
use revu.Prelude.{
  ℕ, ◌≡◌, refl, arith, true, not, Bool-cases, inl, inr, ◌⊎◌, none, Option-cases, List, [], ◌∷◌,
  ◌++◌, filter, find, All, All-append, Text, starts_with, is_empty, split_on,
}
use revu.Retention.Refs.{
  GitResult, done, broke, Git, DropResult, drop_loop, drop_listed, drop_pinned_refs, pin_prefix,
  is_local_review_id, gone,
}

abbrev pub IsUnder : Text → Text → Type 0
IsUnder prefix ref = starts_with ref prefix ≡ true

no_stray :
    (prefix : Text) (refs : List Text)
    → find (λ ref. not (starts_with ref prefix)) refs ≡ none
    → All (IsUnder prefix) refs
no_stray prefix [] e = tt
no_stray prefix (ref ∷ refs) e = elim (Bool-cases (starts_with ref prefix)) [
  | inl under ↦ (under, no_stray prefix refs (ground (arith, e)))
  | inr out ↦ absurd (ground (arith, e))
]

GitResult-cases : (r : GitResult) → ((t : Text) × (r ≡ done t)) ⊎ ((t : Text) × (r ≡ broke t))
GitResult-cases (done t) = inl (t, refl)
GitResult-cases (broke t) = inr (t, refl)

module _ {W : Type 0} (git : Git W) (digits : ℕ → Text) (Inv : W → Type 0) where
  abbrev Keeps : Text → Type 0
  Keeps prefix =
      (ref : Text) (w : W) → starts_with ref prefix ≡ true → Inv w → Inv (git.delete_ref ref w).1

  abbrev IsKept : Text → DropResult × W → Type 0
  IsKept prefix out = All (IsUnder prefix) (gone out.0) × Inv out.1

  drop_loop-IsKept :
      (prefix : Text)
      → Keeps prefix
      → (refs dropped : List Text) (w : W) → All (IsUnder prefix) refs
      → All (IsUnder prefix) dropped
      → Inv w
      → IsKept prefix (drop_loop git digits refs dropped w)
  unfolding drop_loop
  drop_loop-IsKept prefix keeps [] dropped w all so_far k = (so_far, k)
  drop_loop-IsKept prefix keeps (ref ∷ refs) dropped w (under, all) so_far k =
      let next = keeps ref w under k in
      elim (GitResult-cases (git.delete_ref ref w).0) [
        | inl (t, e) ↦
            rw (drop_loop, e)
              (drop_loop-IsKept prefix keeps refs (dropped ++ (ref ∷ [])) (git.delete_ref ref w).1
                all (All-append (IsUnder prefix) dropped (ref ∷ []) so_far (under, tt)) next)
        | inr (t, e) ↦ rw (drop_loop, e) (so_far, next)
      ]

  drop_listed-IsKept :
      (prefix : Text)
      → Keeps prefix
      → (stdout : Text) (w : W) → Inv w
      → IsKept prefix (drop_listed git digits prefix stdout w)
  unfolding drop_listed
  drop_listed-IsKept prefix keeps stdout w k =
      let refs = filter (λ line. not (is_empty line)) (split_on 10 stdout) in
      elim (Option-cases (find (λ ref. not (starts_with ref prefix)) refs)) [
        | inl e ↦
            rw (drop_listed, e)
              (drop_loop-IsKept prefix keeps refs [] w (no_stray prefix refs e) tt k)
        | inr (stray, e) ↦ rw (drop_listed, e) (tt, k)
      ]

  -- Whatever a listing keeps, and the deletion of any ref under the review's prefix keeps, a drop
  -- keeps, whatever the listing answers; and every ref that the result says is gone, in a failure
  -- too, stands under that prefix. So no other ref is deleted.
  pub drop_pinned_refs-IsKept :
      (local_id : ℕ)
      → ((prefix : Text) (w : W) → Inv w → Inv (git.list_refs prefix w).1)
      → Keeps (pin_prefix digits local_id)
      → (w : W) → Inv w
      → All (IsUnder (pin_prefix digits local_id)) (gone (drop_pinned_refs git digits local_id w).0)
        × Inv (drop_pinned_refs git digits local_id w).1
  unfolding drop_pinned_refs
  drop_pinned_refs-IsKept local_id lists keeps w k =
      let prefix = pin_prefix digits local_id in
      let listed = lists prefix w k in
      elim (Bool-cases (is_local_review_id local_id)) [
        | inr e ↦ rw (drop_pinned_refs, e) (tt, k)
        | inl e ↦ elim (GitResult-cases (git.list_refs prefix w).0) [
          | inl (out, r) ↦
              rw (drop_pinned_refs, e, r)
                (drop_listed-IsKept prefix keeps out (git.list_refs prefix w).1 listed)
          | inr (t, r) ↦ rw (drop_pinned_refs, e, r) (tt, listed)
        ]
      ]
