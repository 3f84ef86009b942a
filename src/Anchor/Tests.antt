-- ===== src/Anchor/Tests.antt =====
-- Runs of the anchor code at small files, and what the theorems say of them.
use revu.Prelude.{
  ℕ, ◌≡◌, refl, arith, false, none, some, List, [], ◌∷◌, ◌↔◌, Text, text_eq, trim_end,
}
use revu.Prelude.Int.{sub_ℕ}
use revu.Api.{Side, PendingComment, clean, drifted, lost, line_deleted}
use revu.Anchor.{
  classify_anchor, stays_clean, line_eq, drift_result, drift_search, best_from, present,
  resolve_ranged_start, rigid_start,
}
use revu.Anchor.Drift.{
  IsRankedFirst, IsTrusted, InWindow, holds_anchor, classify_anchor-drifted,
  classify_anchor-eq-clean_iff, classify_anchor-eq-lost_iff,
}
use revu.Anchor.Span.{IsHonest, resolve_ranged_start-IsHonest}

-- A comment on line 2 with the text "b", between "a" and "c".
abbrev comment : PendingComment
comment = record {
  key = b'k' ∷ [];
  path = b'f' ∷ [];
  side = Side.right;
  start_side = none;
  line = 2;
  start_line = some 1;
  body = [];
  created_at = [];
  updated_at = [];
  anchor = record {
    line_text = b'b' ∷ [];
    context_before = (b'a' ∷ []) ∷ [];
    context_after = (b'c' ∷ []) ∷ [];
    start_line_text = some (b'a' ∷ []);
  };
}

-- The file with a line inserted on top.
abbrev shifted : List Text
shifted = (b'x' ∷ []) ∷ (b'a' ∷ []) ∷ (b'b' ∷ []) ∷ (b'c' ∷ []) ∷ []

drifted_run :
    classify_anchor comment (some shifted) present ≡ drifted comment 3 (some 2) (sub_ℕ 3 2) false
unfolding classify_anchor stays_clean line_eq text_eq trim_end drift_result drift_search best_from
    resolve_ranged_start
drifted_run = refl

classify_anchor-drifted_example :
    (comment ≡ comment) × IsRankedFirst comment shifted 3 × (sub_ℕ 3 2 ≡ sub_ℕ 3 2)
classify_anchor-drifted_example = classify_anchor-drifted comment shifted drifted_run

-- The file that the comment was written on.
abbrev original : List Text
original = (b'a' ∷ []) ∷ (b'b' ∷ []) ∷ (b'c' ∷ []) ∷ []

classify_anchor-eq-clean_iff_example :
    (classify_anchor comment (some original) present ≡ clean comment) ↔ IsTrusted comment original
classify_anchor-eq-clean_iff_example = classify_anchor-eq-clean_iff comment original

classify_anchor-eq-lost_iff_example :
    (classify_anchor comment (some shifted) present ≡ lost comment line_deleted)
    ↔ ((k : ℕ) → InWindow comment shifted k → holds_anchor comment shifted k ≡ false)
classify_anchor-eq-lost_iff_example = classify_anchor-eq-lost_iff comment shifted

resolve_ranged_start-IsHonest_example :
    IsHonest shifted (b'a' ∷ []) 3 (rigid_start 1 2 3) (resolve_ranged_start comment shifted 3)
resolve_ranged_start-IsHonest_example =
    resolve_ranged_start-IsHonest comment shifted (b'a' ∷ []) 1 3 refl refl (omega arith)
