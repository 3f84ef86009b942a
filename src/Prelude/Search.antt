-- ===== src/Prelude/Search.antt =====
-- What `find` and `filter` find and leave.
use Prim.Native.Nat.{◌+◌}
use mathlib.Core.Path.{◌≡◌, refl, sym, ap, ◌∙◌}
use mathlib.Core.Bool.{Bool, true, false, not}
use mathlib.Core.List.{List, [], ◌∷◌}
use mathlib.Core.Option.{none, some}
use mathlib.Core.Logic.{inl, inr}
use native.Mathlib.Omega.{arith}
use revu.Prelude.Tests.{Bool-cases}
use revu.Prelude.Lists.{length, filter, find, Contains}

module _ {A : Type 0} (p : A → Bool) where
  find-hit : (x y : A) (xs : List A) → p x ≡ true → find p (x ∷ xs) ≡ some y → x ≡ y
  find-hit x y xs e h = let at : find p (x ∷ xs) ≡ some x = rw e refl in cc

  find-miss : (x : A) (xs : List A) → p x ≡ false → find p (x ∷ xs) ≡ find p xs
  find-miss x xs e = rw e refl

  -- What is found is in the list.
  pub find-Contains : (xs : List A) (y : A) → find p xs ≡ some y → Contains y xs
  find-Contains [] y h = absurd (ground (arith, h))
  find-Contains (x ∷ xs) y h = elim (Bool-cases (p x)) [
    | inl e ↦ inl (sym (find-hit x y xs e h))
    | inr e ↦ inr (find-Contains xs y (sym (find-miss x xs e) ∙ h))
  ]

  -- Leaving out elements that are not looked for changes nothing.
  pub find-filter :
      (keep : A → Bool) (xs : List A)
      → ((x : A) → p x ≡ true → keep x ≡ true)
      → find p (filter keep xs) ≡ find p xs
  find-filter keep [] f = refl
  find-filter keep (x ∷ xs) f = elim (Bool-cases (p x)) [
    | inl e ↦ let kept = f x e in rw (kept, e) refl
    | inr e ↦ elim (Bool-cases (keep x)) [
      | inl kept ↦ rw (kept, e) (find-filter keep xs f)
      | inr left ↦ rw (left, e) (find-filter keep xs f)
    ]
  ]

  excluded : (keep : A → Bool) (x : A) → keep x ≡ true → (p x ≡ true → keep x ≡ false) → p x ≡ false
  excluded keep x e f = elim (Bool-cases (p x)) [
    | inl hit ↦ let left = f hit in absurd (ground (arith, left, e))
    | inr miss ↦ miss
  ]

  -- Two filters, of which the second is implied by the first or excludes it.
  module _ (keep : A → Bool) where
    pub filter-filter :
        (xs : List A)
        → ((x : A) → p x ≡ true → keep x ≡ true)
        → filter p (filter keep xs) ≡ filter p xs
    filter-filter [] f = refl
    filter-filter (x ∷ xs) f = elim (Bool-cases (p x)) [
      | inl e ↦ let kept = f x e in rw (kept, e) (ap (λ ys. x ∷ ys) (filter-filter xs f))
      | inr e ↦ elim (Bool-cases (keep x)) [
        | inl kept ↦ rw (kept, e) (filter-filter xs f)
        | inr left ↦ rw (left, e) (filter-filter xs f)
      ]
    ]

    pub filter-excluded :
        (xs : List A) → ((x : A) → p x ≡ true → keep x ≡ false) → filter p (filter keep xs) ≡ []
    filter-excluded [] f = refl
    filter-excluded (x ∷ xs) f = elim (Bool-cases (keep x)) [
      | inl e ↦ let out = excluded keep x e (f x) in rw e (rw out (filter-excluded xs f))
      | inr e ↦ rw e (filter-excluded xs f)
    ]

    pub find-excluded :
        (xs : List A) → ((x : A) → p x ≡ true → keep x ≡ false) → find p (filter keep xs) ≡ none
    find-excluded [] f = refl
    find-excluded (x ∷ xs) f = elim (Bool-cases (keep x)) [
      | inl e ↦ let out = excluded keep x e (f x) in rw e (rw out (find-excluded xs f))
      | inr e ↦ rw e (find-excluded xs f)
    ]

  pub length-filter :
      (xs : List A) → length xs ≡ length (filter p xs) + length (filter (λ x. not (p x)) xs)
  length-filter [] = refl
  length-filter (x ∷ xs) = elim (Bool-cases (p x)) [
    | inl e ↦ rw e (omega (arith, length-filter xs))
    | inr e ↦ rw e (omega (arith, length-filter xs))
  ]
