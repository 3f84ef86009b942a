-- ===== src/Anchor/Drift.antt =====
-- What `classifyAnchor` answers for a file that is present: clean, drifted or lost, and when.
use revu.Prelude.{
  ℕ, zero, suc, ◌+◌, ◌≤◌, ◌<◌, ◌≡◌, refl, ◌⊎◌, inl, inr, Bool, true, false, Option, none, some,
  List, [], ◌∷◌, Text, length, get_elem?, arith, Bool-cases, Option-cases, ◌↔◌, ◌≢◌, subst,
}
use revu.Prelude.Int.{ℤ, sub_ℕ}
use revu.Api.{PendingComment, clean, drifted, lost, line_deleted}
use revu.Anchor.{
  line_at, line_eq, context_score, search_radius, clean_context_floor, window_lo, window_rounds,
  is_duplicated_in_window, Best, drift_search, drift_result, stays_clean, classify_anchor, present,
}
use revu.Anchor.Scan.{
  Outranks, IsWinner, IsBest, best_from-IsBest, duplicated_from_unique, unique-duplicated_from,
}

get_elem?-lt : (xs : List Text) (i : ℕ) (x : Text) → get_elem? xs i ≡ some x → i < length xs
get_elem?-lt [] i x e = cc
get_elem?-lt (y ∷ xs) zero x e = omega arith
get_elem?-lt (y ∷ xs) (suc i) x e = omega (arith, get_elem?-lt xs i x e)

line_at-bounds :
    (xs : List Text) (k : ℕ) (x : Text) → line_at xs k ≡ some x → (1 ≤ k) × (k ≤ length xs)
line_at-bounds xs zero x e = cc
line_at-bounds xs (suc k) x e = omega (arith, get_elem?-lt xs k x e)

-- A line that equals a text is a line of the file.
pub line_eq-bounds :
    (xs : List Text) (k : ℕ) (o : Option Text)
    → line_eq (line_at xs k) o ≡ true
    → (1 ≤ k) × (k ≤ length xs)
unfolding line_eq
line_eq-bounds xs k o h = elim (Option-cases (line_at xs k)) [
  | inl e ↦ absurd (ground (arith, e))
  | inr (x, e) ↦ line_at-bounds xs k x e
]

module _ (c : PendingComment) (lines : List Text) where
  -- Line k of the file holds the comment's anchor text.
  abbrev pub holds_anchor : ℕ → Bool
  holds_anchor k = line_eq (line_at lines k) (some c.anchor.line_text)

  -- The lines that the drift search looks at.
  abbrev pub InWindow : ℕ → Type 0
  InWindow k =
      (1 ≤ k) × (k ≤ length lines) × (k ≤ c.line + search_radius) × (c.line ≤ k + search_radius)

  abbrev lo : ℕ
  lo = window_lo search_radius c.line

  abbrev rounds : ℕ
  rounds = window_rounds search_radius (length lines) c.line

  drift_search-IsBest :
      IsBest holds_anchor
        (context_score c.anchor lines)
        c.line
        lo
        (lo + rounds)
        (drift_search c lines)
  unfolding drift_search
  drift_search-IsBest =
      best_from-IsBest holds_anchor (context_score c.anchor lines) c.line rounds lo lo (lo + rounds)
        none refl (omega arith) (λ k l u. absurd (omega arith))

  -- Line n is the candidate that the search has to choose.
  pub record IsRankedFirst (n : ℕ) : Type 0 where
    pub in_window : InWindow n
    pub holds : holds_anchor n ≡ true
    pub first :
        (k : ℕ)
        → InWindow k
        → holds_anchor k ≡ true
        → Outranks holds_anchor (context_score c.anchor lines) c.line n k

  IsWinner-IsRankedFirst :
      (b : Best)
      → IsWinner holds_anchor (context_score c.anchor lines) c.line lo (lo + rounds) b
      → IsRankedFirst b.line
  IsWinner-IsRankedFirst b w =
      let (low, high) = line_eq-bounds lines b.line (some c.anchor.line_text) w.is_hit in
      record {
        in_window = omega (arith, w.from_lo, w.before_i);
        holds = w.is_hit;
        first = λ k inside x. w.best k (omega arith) (omega arith) x;
      }

  drift_result_lem :
      (o : Option Best) {c' : PendingComment} {n : ℕ} {start : Option ℕ} {delta : ℤ} {doubt : Bool}
      → IsBest holds_anchor (context_score c.anchor lines) c.line lo (lo + rounds) o
      → drift_result c lines o ≡ drifted c' n start delta doubt
      → (c' ≡ c) × IsRankedFirst n × (delta ≡ sub_ℕ n c.line)
  unfolding drift_result
  drift_result_lem none h e = cc
  drift_result_lem (some b) {n = n} h e =
      let same : b.line ≡ n = cc in (cc, subst IsRankedFirst same (IsWinner-IsRankedFirst b h), cc)

  drift_result-eq-lost :
      (o : Option Best)
      → IsBest holds_anchor (context_score c.anchor lines) c.line lo (lo + rounds) o
      → drift_result c lines o ≡ lost c line_deleted
      → (k : ℕ) → InWindow k
      → holds_anchor k ≡ false
  unfolding drift_result
  drift_result-eq-lost none h e k inside = h k (omega arith) (omega arith)
  drift_result-eq-lost (some b) h e k inside = cc

  drift_result_of_none :
      (o : Option Best)
      → IsBest holds_anchor (context_score c.anchor lines) c.line lo (lo + rounds) o
      → ((k : ℕ) → InWindow k → holds_anchor k ≡ false)
      → drift_result c lines o ≡ lost c line_deleted
  unfolding drift_result
  drift_result_of_none none h all = refl
  drift_result_of_none (some b) h all =
      let first = IsWinner-IsRankedFirst b h in cc (first.holds, all b.line first.in_window)

  drift_result-ne-clean : (o : Option Best) → drift_result c lines o ≢ clean c
  unfolding drift_result
  drift_result-ne-clean none e = cc
  drift_result-ne-clean (some b) e = cc

  -- The anchor text stands on no other line of the window than the comment's own.
  abbrev pub IsAlone : Type 0
  IsAlone = (k : ℕ) → InWindow k → holds_anchor k ≡ true → k ≡ c.line

  IsAlone_of_unduplicated :
      holds_anchor c.line ≡ true
      → is_duplicated_in_window lines c.anchor.line_text c.line ≡ false
      → IsAlone
  unfolding is_duplicated_in_window
  IsAlone_of_unduplicated h e k inside x =
      let (low, high) = line_eq-bounds lines c.line (some c.anchor.line_text) h in
      let above : ¬ (k < c.line) = λ p.
        duplicated_from_unique holds_anchor rounds lo k c.line e (omega arith) p (omega arith) x
          h in
      let below : ¬ (c.line < k) = λ p.
        duplicated_from_unique holds_anchor rounds lo c.line k e (omega arith) p (omega arith) h
          x in
      omega arith

  unduplicated_of_IsAlone :
      IsAlone → is_duplicated_in_window lines c.anchor.line_text c.line ≡ false
  unfolding is_duplicated_in_window
  unduplicated_of_IsAlone alone = unique-duplicated_from holds_anchor rounds lo c.line (λ k l u x.
      let (low, high) = line_eq-bounds lines k (some c.anchor.line_text) x in
      alone k (omega arith) x)

  -- What the fast path asks for.
  abbrev pub IsTrusted : Type 0
  IsTrusted =
      (holds_anchor c.line ≡ true)
      × ((clean_context_floor ≤ context_score c.anchor lines c.line) ⊎ IsAlone)

  IsTrusted_of_stays_clean : stays_clean c lines ≡ true → IsTrusted
  unfolding stays_clean
  IsTrusted_of_stays_clean h =
      let here : holds_anchor c.line ≡ true = ground arith in
      elim (Bool-cases (is_duplicated_in_window lines c.anchor.line_text c.line)) [
        | inl e ↦ (here, inl (ground arith))
        | inr e ↦ (here, inr (IsAlone_of_unduplicated here e))
      ]

  stays_clean_of_IsTrusted : IsTrusted → stays_clean c lines ≡ true
  unfolding stays_clean
  stays_clean_of_IsTrusted (here, inl floor) = ground arith
  stays_clean_of_IsTrusted (here, inr alone) = ground (arith, unduplicated_of_IsAlone alone)

-- A comment that is reported as drifted is carried unchanged, its new line is the first in rank of
-- the lines of the window (within 400 of the old line) that hold the anchor text: no other such line
-- has a higher context score, nor the same score and a smaller distance, nor the same of both and
-- an earlier place; and the delta is the signed distance from the old line.
pub classify_anchor-drifted :
    (c : PendingComment) (lines : List Text) {c' : PendingComment} {n : ℕ} {start : Option ℕ}
    {delta : ℤ} {doubt : Bool}
    → classify_anchor c (some lines) present ≡ drifted c' n start delta doubt
    → (c' ≡ c) × IsRankedFirst c lines n × (delta ≡ sub_ℕ n c.line)
unfolding classify_anchor
classify_anchor-drifted c [] h = cc
classify_anchor-drifted c (l ∷ ls) h = elim (Bool-cases (stays_clean c (l ∷ ls))) [
  | inl e ↦ absurd (ground (arith, e))
  | inr e ↦
      drift_result_lem c (l ∷ ls) (drift_search c (l ∷ ls)) (drift_search-IsBest c (l ∷ ls))
        (rw e at h)
]

-- A comment on a present file is reported as lost exactly when no line within 400 lines of its old
-- line holds the anchor text.
pub classify_anchor-eq-lost_iff :
    (c : PendingComment) (lines : List Text)
    → (classify_anchor c (some lines) present ≡ lost c line_deleted)
      ↔ ((k : ℕ) → InWindow c lines k → holds_anchor c lines k ≡ false)
unfolding classify_anchor
classify_anchor-eq-lost_iff c [] = (λ h k inside. absurd (omega arith), λ all. refl)
classify_anchor-eq-lost_iff c (l ∷ ls) = elim (Bool-cases (stays_clean c (l ∷ ls))) [
  | inl e ↦ rw e (
    λ h k inside. cc,
    λ all.
        let here = (IsTrusted_of_stays_clean c (l ∷ ls) e).0 in
        let bounds = line_eq-bounds (l ∷ ls) c.line (some c.anchor.line_text) here in
        cc (here, all c.line (omega (arith, bounds))),
  )
  | inr e ↦ rw e (
    drift_result-eq-lost c (l ∷ ls) (drift_search c (l ∷ ls)) (drift_search-IsBest c (l ∷ ls)),
    drift_result_of_none c (l ∷ ls) (drift_search c (l ∷ ls)) (drift_search-IsBest c (l ∷ ls)),
  )
]

-- A comment on a present file is reported as clean exactly when its old line holds the anchor text
-- and, besides, the context score there is at least 2 or no other line of the window holds it.
pub classify_anchor-eq-clean_iff :
    (c : PendingComment) (lines : List Text)
    → (classify_anchor c (some lines) present ≡ clean c) ↔ IsTrusted c lines
unfolding classify_anchor
classify_anchor-eq-clean_iff c [] =
    (λ h. cc, λ t. absurd (omega (arith, line_eq-bounds [] c.line (some c.anchor.line_text) t.0)))
classify_anchor-eq-clean_iff c (l ∷ ls) = elim (Bool-cases (stays_clean c (l ∷ ls))) [
  | inl e ↦ rw e (λ h. IsTrusted_of_stays_clean c (l ∷ ls) e, λ t. refl)
  | inr e ↦ rw e (
    λ h. absurd (drift_result-ne-clean c (l ∷ ls) (drift_search c (l ∷ ls)) h),
    λ t. cc (stays_clean_of_IsTrusted c (l ∷ ls) t, e),
  )
]
