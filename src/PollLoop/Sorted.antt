-- ===== src/PollLoop/Sorted.antt =====
-- The stable sort: what it keeps.
use revu.Prelude.{
  suc, ◌≡◌, refl, ap, ◌∙◌, Bool, inl, inr, ◌⊎◌, ◌↔◌, Bool-cases, List, [], ◌∷◌, Contains, length,
  arith,
}
use revu.PollLoop.{insert_sorted, sort_by}

module _ {R : Type 0} (after : R → R → Bool) where
  Contains-insert_sorted :
      (x r : R) (xs : List R) → Contains x (insert_sorted after r xs) ↔ ((x ≡ r) ⊎ Contains x xs)
  Contains-insert_sorted x r [] = ground arith
  Contains-insert_sorted x r (y ∷ xs) =
      let rest = Contains-insert_sorted x r xs in
      elim (Bool-cases (after r y)) [
        | inl e ↦ rw e (ground (arith, rest))
        | inr e ↦ rw e (ground arith)
      ]

  pub Contains-sort_by : (x : R) (xs : List R) → Contains x (sort_by after xs) ↔ Contains x xs
  Contains-sort_by x [] = ground arith
  Contains-sort_by x (y ∷ xs) =
      let rest = Contains-sort_by x xs in
      let here = Contains-insert_sorted x y (sort_by after xs) in ground (arith, rest, here)

  length-insert_sorted : (r : R) (xs : List R) → length (insert_sorted after r xs) ≡ suc (length xs)
  length-insert_sorted r [] = refl
  length-insert_sorted r (y ∷ xs) = elim (Bool-cases (after r y)) [
    | inl e ↦ rw e (omega (arith, length-insert_sorted r xs))
    | inr e ↦ rw e refl
  ]

  pub length-sort_by : (xs : List R) → length (sort_by after xs) ≡ length xs
  length-sort_by [] = refl
  length-sort_by (y ∷ xs) = length-insert_sorted y (sort_by after xs) ∙ ap suc (length-sort_by xs)
