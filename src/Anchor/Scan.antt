-- ===== src/Anchor/Scan.antt =====
-- The candidate searches of anchor.ts as loops: what they return, whatever the file holds.
use revu.Prelude.{
  ℕ, zero, suc, ◌+◌, ◌≤◌, ◌<◌, ◌≡◌, refl, subst, ◌⊎◌, inl, inr, Bool, true, false, Option, none,
  some, arith, Bool-cases, ◌&&◌, if◌then◌else◌,
}
use revu.Anchor.{Best, better, consider, dist, best_from, nearer, nearest_from, duplicated_from}

module _ (hit : ℕ → Bool) (score : ℕ → ℕ) (line : ℕ) where
  -- Line b goes before line k: a higher score, then a smaller distance, then the earlier line.
  abbrev pub Outranks : ℕ → ℕ → Type 0
  Outranks b k =
      (score k < score b)
      ⊎ ((score k ≡ score b) × (dist b line ≤ dist k line) × (dist k line ≡ dist b line → b ≤ k))

  -- The state of the loop after the lines from `lo` to before `i`.
  pub record IsWinner (lo i : ℕ) (b : Best) : Type 0 where
    pub from_lo : lo ≤ b.line
    pub before_i : b.line < i
    pub is_hit : hit b.line ≡ true
    pub score_eq : b.score ≡ score b.line
    pub delta_eq : b.abs_delta ≡ dist b.line line
    pub best : (k : ℕ) → lo ≤ k → k < i → hit k ≡ true → Outranks b.line k

  abbrev pub IsBest : ℕ → ℕ → Option Best → Type 0
  IsBest lo i none = (k : ℕ) → lo ≤ k → k < i → hit k ≡ false
  IsBest lo i (some b) = IsWinner lo i b

  consider-IsBest :
      (lo i : ℕ) (best : Option Best)
      → lo ≤ i
      → IsBest lo i best
      → IsBest lo (i + 1) (consider hit score line i best)
  consider-IsBest lo i none le h = elim (Bool-cases (hit i)) [
    | inl e ↦ rw e (record {
      from_lo = le;
      before_i = omega arith;
      is_hit = e;
      score_eq = refl;
      delta_eq = refl;
      best = λ k l u x. ground (arith, h k);
    })
    | inr e ↦ rw e (λ k l u. ground (arith, h k))
  ]
  consider-IsBest lo i (some b) le h =
      elim (Bool-cases (hit i && better (some b) (score i) (dist i line))) [
        | inl e ↦ rw e (record {
          from_lo = le;
          before_i = omega arith;
          is_hit = ground arith;
          score_eq = refl;
          delta_eq = refl;
          best = λ k l u x. ground (arith, h.best k, h.score_eq, h.delta_eq);
        })
        | inr e ↦ rw e (record {
          from_lo = h.from_lo;
          before_i = omega (arith, h.before_i);
          is_hit = h.is_hit;
          score_eq = h.score_eq;
          delta_eq = h.delta_eq;
          best = λ k l u x. ground (arith, h.best k, h.score_eq, h.delta_eq, h.before_i);
        })
      ]

  pub best_from-IsBest :
      (n lo i j : ℕ) (best : Option Best)
      → i + n ≡ j
      → lo ≤ i
      → IsBest lo i best
      → IsBest lo j (best_from hit score line n i best)
  unfolding best_from
  best_from-IsBest zero lo i j best e le h =
      let same : i ≡ j = omega arith in subst (λ t. IsBest lo t best) same h
  best_from-IsBest (suc n) lo i j best e le h =
      best_from-IsBest n lo (i + 1) j (consider hit score line i best) (omega arith) (omega arith)
        (consider-IsBest lo i best le h)

module _ (hit : ℕ → Bool) (line : ℕ) where
  -- The state of the search for a start line: a nearest hit, the earliest of the nearest.
  pub record IsNearest (lo i b : ℕ) : Type 0 where
    pub from_lo : lo ≤ b
    pub before_i : b < i
    pub is_hit : hit b ≡ true
    pub nearest :
        (k : ℕ)
        → lo ≤ k
        → k < i
        → hit k ≡ true
        → (dist b line < dist k line) ⊎ ((dist b line ≡ dist k line) × (b ≤ k))

  abbrev pub IsNearestOf : ℕ → ℕ → Option ℕ → Type 0
  IsNearestOf lo i none = (k : ℕ) → lo ≤ k → k < i → hit k ≡ false
  IsNearestOf lo i (some b) = IsNearest lo i b

  abbrev nearest_step : ℕ → Option ℕ → Option ℕ
  nearest_step i best = if hit i && nearer best line i then some i else best

  nearest_step-IsNearestOf :
      (lo i : ℕ) (best : Option ℕ)
      → lo ≤ i
      → IsNearestOf lo i best
      → IsNearestOf lo (i + 1) (nearest_step i best)
  nearest_step-IsNearestOf lo i none le h = elim (Bool-cases (hit i)) [
    | inl e ↦ rw e (record {
      from_lo = le;
      before_i = omega arith;
      is_hit = e;
      nearest = λ k l u x. ground (arith, h k);
    })
    | inr e ↦ rw e (λ k l u. ground (arith, h k))
  ]
  nearest_step-IsNearestOf lo i (some b) le h =
      elim (Bool-cases (hit i && nearer (some b) line i)) [
        | inl e ↦ rw e (record {
          from_lo = le;
          before_i = omega arith;
          is_hit = ground arith;
          nearest = λ k l u x. ground (arith, h.nearest k);
        })
        | inr e ↦ rw e (record {
          from_lo = h.from_lo;
          before_i = omega (arith, h.before_i);
          is_hit = h.is_hit;
          nearest = λ k l u x. ground (arith, h.nearest k, h.before_i);
        })
      ]

  pub nearest_from-IsNearestOf :
      (n lo i j : ℕ) (best : Option ℕ)
      → i + n ≡ j
      → lo ≤ i
      → IsNearestOf lo i best
      → IsNearestOf lo j (nearest_from hit line n i best)
  unfolding nearest_from
  nearest_from-IsNearestOf zero lo i j best e le h =
      let same : i ≡ j = omega arith in subst (λ t. IsNearestOf lo t best) same h
  nearest_from-IsNearestOf (suc n) lo i j best e le h =
      nearest_from-IsNearestOf n lo (i + 1) j (nearest_step i best) (omega arith) (omega arith)
        (nearest_step-IsNearestOf lo i best le h)

module _ (hit : ℕ → Bool) where
  no_more_hits :
      (n i seen k : ℕ)
      → 1 ≤ seen
      → duplicated_from hit n i seen ≡ false
      → i ≤ k
      → k < i + n
      → hit k ≡ false
  unfolding duplicated_from
  no_more_hits zero i seen k s e l u = absurd (omega arith)
  no_more_hits (suc n) i seen k s e l u =
      ground (arith, no_more_hits n (i + 1) (if hit i then seen + 1 else seen) k)

  -- When the loop answers false, two hits in its range are one.
  pub duplicated_from_unique :
      (n i k m : ℕ)
      → duplicated_from hit n i 0 ≡ false
      → i ≤ k
      → k < m
      → m < i + n
      → hit k ≡ true
      → hit m ≡ true
      → ⊥
  unfolding duplicated_from
  duplicated_from_unique zero i k m e l u v x y = omega arith
  duplicated_from_unique (suc n) i k m e l u v x y =
      ground (arith, duplicated_from_unique n (i + 1) k m, no_more_hits n (i + 1) 1 m)

  no_hits-duplicated_from :
      (n i seen : ℕ)
      → ((k : ℕ) → i ≤ k → k < i + n → hit k ≡ false)
      → duplicated_from hit n i seen ≡ false
  unfolding duplicated_from
  no_hits-duplicated_from zero i seen h = refl
  no_hits-duplicated_from (suc n) i seen h =
      rw (h i (omega arith) (omega arith))
        (no_hits-duplicated_from n (i + 1) seen (λ k l u. h k (omega arith) (omega arith)))

  -- With one hit in the range at most, the loop answers false.
  pub unique-duplicated_from :
      (n i m : ℕ)
      → ((k : ℕ) → i ≤ k → k < i + n → hit k ≡ true → k ≡ m)
      → duplicated_from hit n i 0 ≡ false
  unfolding duplicated_from
  unique-duplicated_from zero i m h = refl
  unique-duplicated_from (suc n) i m h = elim (Bool-cases (hit i)) [
    | inl e ↦ rw e (no_hits-duplicated_from n (i + 1) 1 (λ k l u. ground (arith, h i, h k)))
    | inr e ↦
        rw e (unique-duplicated_from n (i + 1) m (λ k l u x. h k (omega arith) (omega arith) x))
  ]
