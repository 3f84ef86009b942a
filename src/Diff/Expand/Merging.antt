-- ===== src/Diff/Expand/Merging.antt =====
-- mergeExpanded: the order of merged ranges and the lines that they cover.
use revu.Prelude.{
  ℕ, ◌+◌, ◌≤◌, ◌<◌, ◌≡◌, refl, ap, ◌∙◌, Bool, false, List, [], ◌∷◌, ◌++◌, All, All-append, arith,
  ◌&&◌, ◌||◌, leb, max, Bool-cases, inl, inr, leb→le, map,
}
use revu.Diff.Expand.{
  ExpandedRange, upright, goes_first, sort_in, sort_ranges, coalesce, coalesce_all, merge_expanded,
  merge_each, normalize_expanded,
}

abbrev pub within : ℕ → ExpandedRange → Bool
within n r = leb r.from_new n && leb n r.to_new

-- Line n lies in one of the ranges.
abbrev pub covers : ℕ → List ExpandedRange → Bool
covers n [] = false
covers n (r ∷ rs) = within n r || covers n rs

abbrev pub IsUpright : ExpandedRange → Type 0
IsUpright r = r.from_new ≤ r.to_new

-- In order, upright, and with a line at least between one range and the next.
abbrev pub IsSeparatedFrom : ExpandedRange → List ExpandedRange → Type 0
IsSeparatedFrom r [] = IsUpright r
IsSeparatedFrom r (s ∷ ss) = IsUpright r × (r.to_new + 1 < s.from_new) × IsSeparatedFrom s ss

abbrev pub IsSeparated : List ExpandedRange → Type 0
IsSeparated [] = Unit
IsSeparated (r ∷ rs) = IsSeparatedFrom r rs

-- Sorted by the start.
abbrev IsSortedFrom : ℕ → List ExpandedRange → Type 0
IsSortedFrom n [] = Unit
IsSortedFrom n (r ∷ rs) = (n ≤ r.from_new) × IsUpright r × IsSortedFrom r.from_new rs

sort_in-IsSortedFrom :
    (n : ℕ) (r : ExpandedRange) (rs : List ExpandedRange)
    → n ≤ r.from_new
    → IsUpright r
    → IsSortedFrom n rs
    → IsSortedFrom n (sort_in r rs)
unfolding sort_in
sort_in-IsSortedFrom n r [] h u s = (h, u, tt)
sort_in-IsSortedFrom n r (t ∷ ts) h u s = elim (Bool-cases (goes_first r t)) [
  | inl e ↦ rw e (h, u, (ground arith, s.1, s.2))
  | inr e ↦ rw e (s.0, s.1, sort_in-IsSortedFrom t.from_new r ts (ground arith) u s.2)
]

sort_ranges-IsSortedFrom :
    (rs : List ExpandedRange) → All IsUpright rs → IsSortedFrom 0 (sort_ranges rs)
unfolding sort_ranges
sort_ranges-IsSortedFrom [] h = tt
sort_ranges-IsSortedFrom (r ∷ rs) h =
    sort_in-IsSortedFrom 0 r (sort_ranges rs) (omega arith) h.0 (sort_ranges-IsSortedFrom rs h.1)

IsSortedFrom-le :
    (m n : ℕ) (rs : List ExpandedRange) → m ≤ n → IsSortedFrom n rs → IsSortedFrom m rs
IsSortedFrom-le m n [] h s = tt
IsSortedFrom-le m n (r ∷ rs) h s = (omega arith, s.1, s.2)

abbrev join : ExpandedRange → ExpandedRange → ExpandedRange
join r t = record r { to_new = max r.to_new t.to_new }

StartsAt : ℕ → List ExpandedRange → Type 0
StartsAt n rs = (s : ExpandedRange) × (ss : List ExpandedRange) × (rs ≡ s ∷ ss) × (s.from_new ≡ n)

coalesce-StartsAt :
    (r : ExpandedRange) (rs : List ExpandedRange) → StartsAt r.from_new (coalesce r rs)
unfolding coalesce StartsAt
coalesce-StartsAt r [] = (r, [], refl, refl)
coalesce-StartsAt r (t ∷ ts) = elim (Bool-cases (leb t.from_new (r.to_new + 1))) [
  | inl e ↦ rw e (coalesce-StartsAt (join r t) ts)
  | inr e ↦ rw e (r, coalesce t ts, refl, refl)
]

IsSeparated-cons :
    (r : ExpandedRange) (n : ℕ) (rs : List ExpandedRange)
    → StartsAt n rs
    → IsUpright r
    → r.to_new + 1 < n
    → IsSeparated rs
    → IsSeparated (r ∷ rs)
unfolding StartsAt
IsSeparated-cons r n [] (s, ss, e, f) u h k = u
IsSeparated-cons r n (t ∷ ts) (s, ss, e, f) u h k =
    let same : t ≡ s = cc in
    let at : t.from_new ≡ n = ap (λ x. x.from_new) same ∙ f in (u, omega arith, k)

coalesce-IsSeparated :
    (r : ExpandedRange) (rs : List ExpandedRange)
    → IsUpright r
    → IsSortedFrom r.from_new rs
    → IsSeparated (coalesce r rs)
unfolding coalesce
coalesce-IsSeparated r [] u s = u
coalesce-IsSeparated r (t ∷ ts) u s = elim (Bool-cases (leb t.from_new (r.to_new + 1))) [
  | inl e ↦ rw e (
      coalesce-IsSeparated (join r t) ts (omega arith)
        (IsSortedFrom-le r.from_new t.from_new ts s.0 s.2))
  | inr e ↦ rw e (
      IsSeparated-cons r t.from_new (coalesce t ts) (coalesce-StartsAt t ts) u (ground arith)
        (coalesce-IsSeparated t ts s.1 s.2))
]

covers-sort_in :
    (n : ℕ) (r : ExpandedRange) (rs : List ExpandedRange)
    → covers n (sort_in r rs) ≡ within n r || covers n rs
unfolding sort_in
covers-sort_in n r [] = refl
covers-sort_in n r (s ∷ ss) = ground (arith, covers-sort_in n r ss)

covers-sort_ranges : (n : ℕ) (rs : List ExpandedRange) → covers n (sort_ranges rs) ≡ covers n rs
unfolding sort_ranges
covers-sort_ranges n [] = refl
covers-sort_ranges n (r ∷ rs) =
    covers-sort_in n r (sort_ranges rs) ∙ ap (λ b. within n r || b) (covers-sort_ranges n rs)

within-join :
    (n : ℕ) (r t : ExpandedRange) (b : Bool)
    → r.from_new ≤ t.from_new
    → IsUpright r
    → IsUpright t
    → t.from_new ≤ r.to_new + 1
    → within n (join r t) || b ≡ within n r || (within n t || b)
within-join n r t b h u v k = ground arith

covers-coalesce :
    (n : ℕ) (r : ExpandedRange) (rs : List ExpandedRange)
    → IsUpright r
    → IsSortedFrom r.from_new rs
    → covers n (coalesce r rs) ≡ within n r || covers n rs
unfolding coalesce
covers-coalesce n r [] u s = refl
covers-coalesce n r (t ∷ ts) u s = elim (Bool-cases (leb t.from_new (r.to_new + 1))) [
  | inl e ↦ rw e (
      covers-coalesce n (join r t) ts (omega arith)
        (IsSortedFrom-le r.from_new t.from_new ts s.0 s.2)
      ∙ within-join n r t (covers n ts) s.0 u s.1 (leb→le _ _ e))
  | inr e ↦ rw e (ap (λ b. within n r || b) (covers-coalesce n t ts s.1 s.2))
]

covers-append :
    (n : ℕ) (rs ss : List ExpandedRange) → covers n (rs ++ ss) ≡ covers n rs || covers n ss
covers-append n [] ss = refl
covers-append n (r ∷ rs) ss = ground (arith, covers-append n rs ss)

upright-IsUpright : (r : ExpandedRange) → IsUpright (upright r)
upright-IsUpright r = ground arith

IsSeparated-IsUpright : (rs : List ExpandedRange) → IsSeparated rs → All IsUpright rs
IsSeparated-IsUpright [] h = tt
IsSeparated-IsUpright (r ∷ []) h = (h, tt)
IsSeparated-IsUpright (r ∷ s ∷ ss) h = (h.0, IsSeparated-IsUpright (s ∷ ss) h.2)

coalesce_all-IsSeparated :
    (rs : List ExpandedRange) → IsSortedFrom 0 rs → IsSeparated (coalesce_all rs)
coalesce_all-IsSeparated [] s = tt
coalesce_all-IsSeparated (r ∷ rs) s = coalesce-IsSeparated r rs s.1 s.2

covers-coalesce_all :
    (n : ℕ) (rs : List ExpandedRange) → IsSortedFrom 0 rs → covers n (coalesce_all rs) ≡ covers n rs
covers-coalesce_all n [] s = refl
covers-coalesce_all n (r ∷ rs) s = covers-coalesce n r rs s.1 s.2

module _ (ranges : List ExpandedRange) (add : ExpandedRange) (h : All IsUpright ranges) where
  sorted_input : IsSortedFrom 0 (sort_ranges (ranges ++ upright add ∷ []))
  sorted_input =
      sort_ranges-IsSortedFrom (ranges ++ upright add ∷ [])
        (All-append IsUpright ranges (upright add ∷ []) h (upright-IsUpright add, tt))

  pub merge_expanded-IsSeparated : IsSeparated (merge_expanded ranges add)
  unfolding merge_expanded
  merge_expanded-IsSeparated =
      coalesce_all-IsSeparated (sort_ranges (ranges ++ upright add ∷ [])) sorted_input

  pub covers-merge_expanded :
      (n : ℕ) → covers n (merge_expanded ranges add) ≡ covers n ranges || within n (upright add)
  unfolding merge_expanded
  covers-merge_expanded n =
      covers-coalesce_all n (sort_ranges (ranges ++ upright add ∷ [])) sorted_input
      ∙ covers-sort_ranges n (ranges ++ upright add ∷ [])
      ∙ covers-append n ranges (upright add ∷ [])
      ∙ ap (λ b. covers n ranges || b) (ground arith)

-- Merging a range, inverted or not, into upright ranges gives ranges in order, upright and apart
-- (a line at least between two of them), and they cover exactly the lines that the old ranges and
-- the added one cover.
pub merge_expanded_lem :
    (ranges : List ExpandedRange) (add : ExpandedRange)
    → All IsUpright ranges
    → IsSeparated (merge_expanded ranges add)
      × ((n : ℕ) → covers n (merge_expanded ranges add) ≡ covers n ranges || within n (upright add))
merge_expanded_lem ranges add h =
    (merge_expanded-IsSeparated ranges add h, covers-merge_expanded ranges add h)

merge_each_lem :
    (merged ranges : List ExpandedRange)
    → IsSeparated merged
    → IsSeparated (merge_each merged ranges)
      × ((n : ℕ)
          → covers n (merge_each merged ranges) ≡ covers n merged || covers n (map upright ranges))
unfolding merge_each
merge_each_lem merged [] h = (h, λ n. ground arith)
merge_each_lem merged (r ∷ rs) h =
    let up = IsSeparated-IsUpright merged h in
    let (is, same) =
      merge_each_lem (merge_expanded merged r) rs (merge_expanded-IsSeparated merged r up) in
    (is, λ n. ground (arith, same n, covers-merge_expanded merged r up n))

-- Normalising any ranges gives ranges in order, upright and apart that cover the same lines.
pub normalize_expanded_lem :
    (ranges : List ExpandedRange)
    → IsSeparated (normalize_expanded ranges)
      × ((n : ℕ) → covers n (normalize_expanded ranges) ≡ covers n (map upright ranges))
unfolding normalize_expanded
normalize_expanded_lem ranges = merge_each_lem [] ranges tt
