-- ===== src/Store/Tables/Distinct.antt =====
-- Tables in which no two rows have the same key, under INSERT of a new key, UPDATE of columns that
-- are not in the key, and DELETE.
use revu.Prelude.{
  ◌≡◌, refl, sym, ap, subst, if◌then◌else◌, ◌∙◌, Bool, Bool-cases, inl, inr, ◌⊎◌, none, some, List,
  [], ◌∷◌, ◌++◌, map, filter, arith,
}
use revu.Store.Tables.{Keys, at_key, select, IsStored}

module _ {K R : Type 0} (keys : Keys K) (key_of : R → K) where
  abbrev pub IsDistinct : List R → Type 0
  IsDistinct [] = Unit
  IsDistinct (r ∷ rs) = (¬ IsStored keys key_of (key_of r) rs) × IsDistinct rs

  pub select-append :
      (k : K) (rs : List R) (row : R)
      → select keys key_of k rs ≡ none
      → select keys key_of k (rs ++ (row ∷ [])) ≡ select keys key_of k (row ∷ [])
  select-append k [] row h = refl
  select-append k (r ∷ rs) row h = elim (Bool-cases (at_key keys key_of k r)) [
    | inl e ↦
        let at : select keys key_of k (r ∷ rs) ≡ some r = rw e refl in
        absurd (ground (arith, at, h))
    | inr e ↦
        let rest : select keys key_of k (r ∷ rs) ≡ select keys key_of k rs = rw e refl in
        rw e (select-append k rs row (sym rest ∙ h))
  ]

  pub select-append_found :
      (k : K) (rs : List R) (row found : R)
      → select keys key_of k rs ≡ some found
      → select keys key_of k (rs ++ (row ∷ [])) ≡ some found
  select-append_found k [] row found h = absurd (ground (arith, h))
  select-append_found k (r ∷ rs) row found h = elim (Bool-cases (at_key keys key_of k r)) [
    | inl e ↦ let at : select keys key_of k (r ∷ rs) ≡ some r = rw e refl in rw e (sym at ∙ h)
    | inr e ↦
        let rest : select keys key_of k (r ∷ rs) ≡ select keys key_of k rs = rw e refl in
        rw e (select-append_found k rs row found (sym rest ∙ h))
  ]

  pub select-eq-none :
      (k : K) (rs : List R) → select keys key_of k rs ≡ none → ¬ IsStored keys key_of k rs
  select-eq-none k [] h m = m
  select-eq-none k (r ∷ rs) h m = elim (Bool-cases (at_key keys key_of k r)) [
    | inl e ↦
        let at : select keys key_of k (r ∷ rs) ≡ some r = rw e refl in
        absurd (ground (arith, at, h))
    | inr e ↦
        let rest : select keys key_of k (r ∷ rs) ≡ select keys key_of k rs = rw e refl in
        let own = keys.same_iff k (key_of r) in
        elim m [
          | inl same ↦ absurd (ground (arith, sym same))
          | inr there ↦ select-eq-none k rs (sym rest ∙ h) there
        ]
  ]

  pub IsStored-append :
      (k : K) (rs : List R) (row : R)
      → IsStored keys key_of k (rs ++ (row ∷ []))
      → IsStored keys key_of k rs ⊎ (key_of row ≡ k)
  IsStored-append k [] row (inl e) = inr e
  IsStored-append k [] row (inr m) = absurd m
  IsStored-append k (r ∷ rs) row (inl e) = inl (inl e)
  IsStored-append k (r ∷ rs) row (inr m) = elim (IsStored-append k rs row m) [
    | inl there ↦ inl (inr there)
    | inr e ↦ inr e
  ]

  pub append-IsDistinct :
      (rs : List R) (row : R)
      → ¬ IsStored keys key_of (key_of row) rs
      → IsDistinct rs
      → IsDistinct (rs ++ (row ∷ []))
  append-IsDistinct [] row new h = (λ m. m, tt)
  append-IsDistinct (r ∷ rs) row new (first, rest) = (
    λ m. elim (IsStored-append (key_of r) rs row m) [
      | inl there ↦ first there
      | inr e ↦ new (inl (sym e))
    ],
    append-IsDistinct rs row (λ m. new (inr m)) rest,
  )

  module _ (f : R → R) (keeps : (r : R) → key_of (f r) ≡ key_of r) where
    pub IsStored-map :
        (k : K) (rs : List R) → IsStored keys key_of k (map f rs) → IsStored keys key_of k rs
    IsStored-map k [] m = m
    IsStored-map k (r ∷ rs) (inl e) = inl (sym (keeps r) ∙ e)
    IsStored-map k (r ∷ rs) (inr m) = inr (IsStored-map k rs m)

    pub map-IsDistinct : (rs : List R) → IsDistinct rs → IsDistinct (map f rs)
    map-IsDistinct [] h = tt
    map-IsDistinct (r ∷ rs) (first, rest) =
        (λ m. first (IsStored-map (key_of r) rs (rw (sym (keeps r)) m)), map-IsDistinct rs rest)

    pub select-map :
        (k : K) (rs : List R)
        → select keys key_of k (map f rs)
          ≡ (elim (select keys key_of k rs) [ none ↦ none | some r ↦ some (f r) ])
    select-map k [] = refl
    select-map k (r ∷ rs) =
        let same : at_key keys key_of k (f r) ≡ at_key keys key_of k r =
          ap (keys.same k) (keeps r) in
        elim (Bool-cases (at_key keys key_of k r)) [
          | inl e ↦ let there = same ∙ e in rw (there, e) refl
          | inr e ↦ let there = same ∙ e in rw (there, e) (select-map k rs)
        ]

  pub IsStored-none :
      (k : K) (rs : List R) → ¬ IsStored keys key_of k rs → select keys key_of k rs ≡ none
  IsStored-none k [] out = refl
  IsStored-none k (r ∷ rs) out = elim (Bool-cases (at_key keys key_of k r)) [
    | inl e ↦ absurd (out (inl (sym ((keys.same_iff k (key_of r)).0 e))))
    | inr e ↦ rw e (IsStored-none k rs (λ m. out (inr m)))
  ]

  module _ (keep : R → Bool) where
    pub IsStored-filter :
        (k : K) (rs : List R) → IsStored keys key_of k (filter keep rs) → IsStored keys key_of k rs
    IsStored-filter k [] m = m
    IsStored-filter k (r ∷ rs) m = elim (Bool-cases (keep r)) [
      | inl e ↦
          let split : filter keep (r ∷ rs) ≡ r ∷ filter keep rs = rw e refl in
          elim (subst (IsStored keys key_of k) split m) [
            | inl same ↦ inl same
            | inr there ↦ inr (IsStored-filter k rs there)
          ]
      | inr e ↦
          let split : filter keep (r ∷ rs) ≡ filter keep rs = rw e refl in
          inr (IsStored-filter k rs (subst (IsStored keys key_of k) split m))
    ]

    pub filter-IsDistinct : (rs : List R) → IsDistinct rs → IsDistinct (filter keep rs)
    filter-IsDistinct [] h = tt
    filter-IsDistinct (r ∷ rs) (first, rest) = elim (Bool-cases (keep r)) [
      | inl e ↦ rw e (λ m. first (IsStored-filter (key_of r) rs m), filter-IsDistinct rs rest)
      | inr e ↦ rw e (filter-IsDistinct rs rest)
    ]

    -- What a deletion by any condition leaves to be found under a key.
    pub select-filter :
        (k : K) (rs : List R)
        → IsDistinct rs
        → select keys key_of k (filter keep rs) ≡ (elim (select keys key_of k rs) [
          | none ↦ none
          | some r ↦ if keep r then some r else none
        ])
    select-filter k [] h = refl
    select-filter k (r ∷ rs) (first, rest) = elim (Bool-cases (keep r)) [
      | inl e ↦ elim (Bool-cases (at_key keys key_of k r)) [
        | inl at ↦ rw (e, at) (rw e refl)
        | inr at ↦ rw (e, at) (select-filter k rs rest)
      ]
      | inr e ↦ elim (Bool-cases (at_key keys key_of k r)) [
        | inl at ↦
            let own = (keys.same_iff k (key_of r)).0 at in
            let gone =
              IsStored-none k (filter keep rs)
                λ m. first (subst (λ j. IsStored keys key_of j rs) own (IsStored-filter k rs m)) in
            rw (e, at) (rw e gone)
        | inr at ↦ rw (e, at) (select-filter k rs rest)
      ]
    ]
