-- ===== src/Store/Tables.antt =====
-- Rows under a key: SELECT, INSERT with ON CONFLICT DO UPDATE, and DELETE with a key in the
-- condition, over the list of the rows in the order in which they were first inserted.
pub mod Distinct
use revu.Prelude.{
  ℕ, ◌≡◌, ◌≢◌, refl, sym, ap, ◌∙◌, Bool, true, false, not, ◌&&◌, Bool-cases, inl, inr, ◌⊎◌, ◌↔◌,
  Option, some, none, List, [], ◌∷◌, if◌then◌else◌, filter, find, All, Contains, Text, text_eq,
  text_eq_iff, ◌==◌, ==_iff, arith,
}

-- Equality of keys: a key column, or a pair of them.
pub record Keys (K : Type 0) : Type 0 where
  pub same : K → K → Bool
  pub same_iff : (a b : K) → (same a b ≡ true) ↔ (a ≡ b)

abbrev pub number_keys : Keys ℕ
number_keys = record { same = ◌==◌; same_iff = ==_iff }

abbrev pub text_keys : Keys Text
text_keys = record { same = text_eq; same_iff = text_eq_iff }

module _ {A B : Type 0} (left : Keys A) (right : Keys B) where
  abbrev both : A × B → A × B → Bool
  both k l = left.same k.0 l.0 && right.same k.1 l.1

  pub both_iff : (k l : A × B) → (both k l ≡ true) ↔ (k ≡ l)
  both_iff (a, b) (c, d) =
      let first = left.same_iff a c in
      let second = right.same_iff b d in
      (
        λ h.
            let e : a ≡ c = ground (arith, h) in
            let f : b ≡ d = ground (arith, h) in rw (e, f) refl,
        λ e.
            let here : a ≡ c = ap (λ k. k.0) e in
            let there : b ≡ d = ap (λ k. k.1) e in ground arith,
      )

  abbrev pub pair_keys : Keys (A × B)
  pair_keys = record { same = both; same_iff = both_iff }

module _ {K R : Type 0} (keys : Keys K) (key_of : R → K) where
  abbrev pub at_key : K → R → Bool
  at_key k r = keys.same k (key_of r)

  -- SELECT ... WHERE key = ?
  abbrev pub select : K → List R → Option R
  select k = find (at_key k)

  -- INSERT ... ON CONFLICT(key) DO UPDATE: the row keeps its place.
  unfoldable pub upsert : R → List R → List R
  upsert row [] = row ∷ []
  upsert row (r ∷ rs) =
      let rest = upsert row rs in if at_key (key_of row) r then row ∷ rs else r ∷ rest

  -- DELETE ... WHERE key = ?
  abbrev pub delete_at : K → List R → List R
  delete_at k = filter (λ r. not (at_key k r))

  same_key : (k l : K) → keys.same k l ≡ false → k ≢ l
  same_key k l h e = let at = (keys.same_iff k l).1 e in cc

  at_own_key : (r : R) → at_key (key_of r) r ≡ true
  at_own_key r = (keys.same_iff (key_of r) (key_of r)).1 refl

  pub select-upsert : (row : R) (rs : List R) → select (key_of row) (upsert row rs) ≡ some row
  unfolding upsert
  select-upsert row [] = rw (at_own_key row)
  select-upsert row (r ∷ rs) = elim (Bool-cases (at_key (key_of row) r)) [
    | inl e ↦ rw (e, upsert) (rw (at_own_key row))
    | inr e ↦ rw (e, upsert) (rw e (select-upsert row rs))
  ]

  pub select-upsert_other :
      (k : K) (row : R) (rs : List R) → k ≢ key_of row → select k (upsert row rs) ≡ select k rs
  unfolding upsert
  select-upsert_other k row [] apart =
      let differ : keys.same k (key_of row) ≡ false =
        let at = keys.same_iff k (key_of row) in ground arith in
      rw differ
  select-upsert_other k row (r ∷ rs) apart =
      let differ : at_key k row ≡ false = let at = keys.same_iff k (key_of row) in ground arith in
      elim (Bool-cases (at_key (key_of row) r)) [
        | inl e ↦
            let same = (keys.same_iff (key_of row) (key_of r)).0 e in
            let differ_there : at_key k r ≡ false = ap (keys.same k) (sym same) ∙ differ in
            rw (e, upsert) (rw (differ, differ_there))
        | inr e ↦ rw (e, upsert) (rw (select-upsert_other k row rs apart))
      ]

  pub select-delete_at : (k : K) (rs : List R) → select k (delete_at k rs) ≡ none
  select-delete_at k [] = refl
  select-delete_at k (r ∷ rs) = elim (Bool-cases (at_key k r)) [
    | inl e ↦ rw e (select-delete_at k rs)
    | inr e ↦ rw e (rw e (select-delete_at k rs))
  ]

  pub select-delete_at_other :
      (j k : K) (rs : List R) → j ≢ k → select j (delete_at k rs) ≡ select j rs
  select-delete_at_other j k [] apart = refl
  select-delete_at_other j k (r ∷ rs) apart = elim (Bool-cases (at_key k r)) [
    | inl e ↦
        let same = (keys.same_iff k (key_of r)).0 e in
        let differ : at_key j r ≡ false =
          let at = keys.same_iff j (key_of r) in ground (arith, same) in
        rw (e, differ) (select-delete_at_other j k rs apart)
    | inr e ↦ rw e (rw (select-delete_at_other j k rs apart))
  ]

  -- Some row stands under the key.
  abbrev pub IsStored : K → List R → Type 0
  IsStored k [] = ⊥
  IsStored k (r ∷ rs) = (key_of r ≡ k) ⊎ IsStored k rs

  pub select-IsStored :
      (k : K) (rs : List R) → IsStored k rs → (r : R) × (select k rs ≡ some r) × (key_of r ≡ k)
  select-IsStored k [] h = absurd h
  select-IsStored k (r ∷ rs) h = elim (Bool-cases (at_key k r)) [
    | inl e ↦ (r, rw e, sym ((keys.same_iff k (key_of r)).0 e))
    | inr e ↦ rw e (select-IsStored k rs (let at = keys.same_iff k (key_of r) in ground arith))
  ]

  pub Contains-IsStored : (r : R) (rs : List R) → Contains r rs → IsStored (key_of r) rs
  Contains-IsStored r [] m = absurd m
  Contains-IsStored r (x ∷ rs) (inl e) = inl (sym (ap key_of e))
  Contains-IsStored r (x ∷ rs) (inr m) = inr (Contains-IsStored r rs m)

  pub upsert-IsStored : (row : R) (rs : List R) → IsStored (key_of row) (upsert row rs)
  unfolding upsert
  upsert-IsStored row [] = inl refl
  upsert-IsStored row (r ∷ rs) = elim (Bool-cases (at_key (key_of row) r)) [
    | inl e ↦ rw (e, upsert) (inl refl)
    | inr e ↦ rw (e, upsert) (inr (upsert-IsStored row rs))
  ]

  pub upsert-keeps_IsStored :
      (k : K) (row : R) (rs : List R) → IsStored k rs → IsStored k (upsert row rs)
  unfolding upsert
  upsert-keeps_IsStored k row [] h = absurd h
  upsert-keeps_IsStored k row (r ∷ rs) h = elim (Bool-cases (at_key (key_of row) r)) [
    | inl e ↦
        let same = (keys.same_iff (key_of row) (key_of r)).0 e in
        rw (e, upsert) (elim h [ inl at ↦ inl (same ∙ at) | inr m ↦ inr m ])
    | inr e ↦
        rw (e, upsert) (elim h [ inl at ↦ inl at | inr m ↦ inr (upsert-keeps_IsStored k row rs m) ])
  ]

module _ {κ} {K R : Type 0} (keys : Keys K) (key_of : R → K) (P : R → Type κ) where
  pub upsert-All : (row : R) (rs : List R) → P row → All P rs → All P (upsert keys key_of row rs)
  unfolding upsert
  upsert-All row [] p h = (p, tt)
  upsert-All row (r ∷ rs) p h = elim (Bool-cases (at_key keys key_of (key_of row) r)) [
    | inl e ↦ rw (e, upsert) (p, h.1)
    | inr e ↦ rw (e, upsert) (h.0, upsert-All row rs p h.1)
  ]
