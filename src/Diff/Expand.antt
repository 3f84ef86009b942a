-- ===== src/Diff/Expand.antt =====
-- diff.ts, `mergeExpanded` and `normalizeExpanded`: the ranges of new-file lines that the reader
-- has expanded.
pub mod Merging
use revu.Prelude.{ℕ, ◌+◌, max, ltb, leb, ◌==◌, ◌&&◌, ◌||◌, if◌then◌else◌, Bool, List, [], ◌∷◌, ◌++◌}

-- Inclusive on both sides.
pub record ExpandedRange : Type 0 where
  pub from_new : ℕ
  pub to_new : ℕ

-- Inverted input is turned round.
abbrev pub upright : ExpandedRange → ExpandedRange
upright r =
    if leb r.from_new r.to_new then r else record { from_new = r.to_new; to_new = r.from_new }

-- The comparison a.fromNew - b.fromNew || a.toNew - b.toNew is not positive.
abbrev pub goes_first : ExpandedRange → ExpandedRange → Bool
goes_first a b = ltb a.from_new b.from_new || (a.from_new == b.from_new && leb a.to_new b.to_new)

-- The stable sort by that comparison.
pub sort_in : ExpandedRange → List ExpandedRange → List ExpandedRange
sort_in r [] = r ∷ []
sort_in r (s ∷ ss) = let later = sort_in r ss in if goes_first r s then r ∷ s ∷ ss else s ∷ later

pub sort_ranges : List ExpandedRange → List ExpandedRange
unfolding sort_in
sort_ranges [] = []
sort_ranges (r ∷ rs) = sort_in r (sort_ranges rs)

-- The loop, on the last range put out and those that are left.
pub coalesce : ExpandedRange → List ExpandedRange → List ExpandedRange
coalesce last [] = last ∷ []
coalesce last (r ∷ rs) =
    let joined = coalesce (record last { to_new = max last.to_new r.to_new }) rs in
    let apart = last ∷ coalesce r rs in if leb r.from_new (last.to_new + 1) then joined else apart

abbrev pub coalesce_all : List ExpandedRange → List ExpandedRange
coalesce_all [] = []
coalesce_all (r ∷ rs) = coalesce r rs

pub merge_expanded : List ExpandedRange → ExpandedRange → List ExpandedRange
unfolding coalesce sort_ranges
merge_expanded ranges add = coalesce_all (sort_ranges (ranges ++ upright add ∷ []))

-- The loop of `normalizeExpanded`, from the ranges merged so far.
pub merge_each : List ExpandedRange → List ExpandedRange → List ExpandedRange
unfolding merge_expanded
merge_each merged [] = merged
merge_each merged (r ∷ rs) = merge_each (merge_expanded merged r) rs

pub normalize_expanded : List ExpandedRange → List ExpandedRange
unfolding merge_each
normalize_expanded ranges = merge_each [] ranges
