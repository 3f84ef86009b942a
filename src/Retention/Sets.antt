-- ===== src/Retention/Sets.antt =====
-- The sets of keys that the sweeps subtract: what is in them, and what a deletion leaves.
use revu.Prelude.{
  ◌≡◌, refl, sym, ap, subst, Bool, true, false, not, Bool-cases, inl, inr, ◌⊎◌, ◌↔◌, List, [], ◌∷◌,
  ◌++◌, ◌∙◌, find, find-filter, if◌then◌else◌, any, filter, Contains, Text, text_eq, text_eq_iff,
  arith,
}
use revu.Retention.{has, add_key, set_of, delete_loop}

module _ {A : Type 0} where
  Contains-append :
      (x : A) (xs ys : List A) → Contains x (xs ++ ys) ↔ (Contains x xs ⊎ Contains x ys)
  Contains-append x [] ys = (inr, λ m. elim m [ inl c ↦ absurd c | inr c ↦ c ])
  Contains-append x (y ∷ xs) ys = let rest = Contains-append x xs ys in ground (arith, rest)

  pub Contains-filter :
      (p : A → Bool) (x : A) (xs : List A)
      → Contains x (filter p xs) ↔ (Contains x xs × (p x ≡ true))
  Contains-filter p x [] = (λ m. absurd m, λ h. h.0)
  Contains-filter p x (y ∷ xs) =
      let rest = Contains-filter p x xs in
      let same : x ≡ y → p x ≡ p y = λ e. ap p e in
      elim (Bool-cases (p y)) [
        | inl e ↦ rw e (ground (arith, rest))
        | inr e ↦ rw e (ground (arith, rest))
      ]

-- A key is in a set when the loop finds it.
pub has_iff : (k : Text) (ks : List Text) → (has k ks ≡ true) ↔ Contains k ks
has_iff k [] = ground arith
has_iff k (j ∷ ks) = ground (arith, has_iff k ks, text_eq_iff k j)

pub Contains-add_key :
    (x k : Text) (ks : List Text) → Contains x (add_key k ks) ↔ (Contains x ks ⊎ (x ≡ k))
Contains-add_key x k ks = elim (Bool-cases (has k ks)) [
  | inl e ↦ rw e (
    inl,
    λ m. elim m [
      | inl c ↦ c
      | inr same ↦ subst (λ y. Contains y ks) (sym same) ((has_iff k ks).0 e)
    ],
  )
  | inr e ↦ rw e (let at = Contains-append x ks (k ∷ []) in ground (arith, at))
]

pub Contains-set_of :
    (x : Text) (ks seen : List Text)
    → Contains x (set_of ks seen) ↔ (Contains x ks ⊎ Contains x seen)
Contains-set_of x [] seen = (inr, λ m. elim m [ inl c ↦ absurd c | inr c ↦ c ])
Contains-set_of x (k ∷ ks) seen =
    let rest = Contains-set_of x ks (add_key k seen) in
    let one = Contains-add_key x k seen in ground (arith, rest, one)

-- What a deletion leaves: the rows with a needed key, and those with none of the keys given.
module _ {R : Type 0} (key_of : R → Text) (needed : List Text) where
  abbrev left_by : Text → List R → List R
  left_by k rows = filter (λ r. not (text_eq k (key_of r))) rows

  abbrev reported : Text → List R → List Text → List Text
  reported k rows removed =
      if any (λ r. text_eq k (key_of r)) rows then removed ++ (k ∷ []) else removed

  delete_loop-needed :
      (k : Text) (ks : List Text) (rows : List R) (removed : List Text)
      → has k needed ≡ true
      → delete_loop key_of needed (k ∷ ks) rows removed ≡ delete_loop key_of needed ks rows removed
  unfolding delete_loop
  delete_loop-needed k ks rows removed e = rw (e, delete_loop) refl

  delete_loop-unneeded :
      (k : Text) (ks : List Text) (rows : List R) (removed : List Text)
      → has k needed ≡ false
      → delete_loop key_of needed (k ∷ ks) rows removed
        ≡ delete_loop key_of needed ks (left_by k rows) (reported k rows removed)
  unfolding delete_loop
  delete_loop-unneeded k ks rows removed e = rw (e, delete_loop) refl

  pub delete_loop-rows :
      (r : R) (ks : List Text) (rows : List R) (removed : List Text)
      → Contains r (delete_loop key_of needed ks rows removed).0
        ↔ (Contains r rows × (Contains (key_of r) needed ⊎ ¬ Contains (key_of r) ks))
  unfolding delete_loop
  delete_loop-rows r [] rows removed = ground arith
  delete_loop-rows r (k ∷ ks) rows removed =
      let is_needed = has_iff k needed in
      let row_needed = has_iff (key_of r) needed in
      let same : k ≡ key_of r → has k needed ≡ has (key_of r) needed = ap (λ y. has y needed) in
      elim (Bool-cases (has k needed)) [
        | inl e ↦
            let rest = delete_loop-rows r ks rows removed in
            rw (delete_loop-needed k ks rows removed e) (ground arith)
        | inr e ↦
            let rest = delete_loop-rows r ks (left_by k rows) (reported k rows removed) in
            let kept = Contains-filter (λ r. not (text_eq k (key_of r))) r rows in
            rw (delete_loop-unneeded k ks rows removed e) (ground (arith, text_eq_iff k (key_of r)))
      ]

  -- Who looks for rows with a needed key finds what was there before.
  pub delete_loop-find :
      (p : R → Bool)
      → ((r : R) → p r ≡ true → Contains (key_of r) needed)
      → (ks : List Text) (rows : List R) (removed : List Text)
      → find p (delete_loop key_of needed ks rows removed).0 ≡ find p rows
  unfolding delete_loop
  delete_loop-find p wanted [] rows removed = refl
  delete_loop-find p wanted (k ∷ ks) rows removed = elim (Bool-cases (has k needed)) [
    | inl e ↦
        rw (delete_loop-needed k ks rows removed e) (delete_loop-find p wanted ks rows removed)
    | inr e ↦ rw (delete_loop-unneeded k ks rows removed e) (
        delete_loop-find p wanted ks (left_by k rows) (reported k rows removed)
        ∙ find-filter p (λ r. not (text_eq k (key_of r))) rows
            λ r at.
              let is_needed = has_iff k needed in
              let same : k ≡ key_of r → has k needed ≡ has (key_of r) needed =
                ap (λ y. has y needed) in
              let row_needed = (has_iff (key_of r) needed).1 (wanted r at) in
              ground (arith, text_eq_iff k (key_of r)))
  ]
