-- ===== src/LocalArchive/Choice.antt =====
-- supersedes and supersedingPull: which pull requests count, and which is chosen.
use revu.Prelude.{
  ℕ, ◌≤◌, ◌<◌, ◌≡◌, ◌≢◌, refl, sym, ap, ltb, not, Bool, true, false, Bool-cases, inl, inr, ◌⊎◌, ◌↔◌,
  Option, none, some, List, [], ◌∷◌, Contains, Text, text_eq_iff, is_empty, to_lower, arith, subst,
  ◌||◌, ◌==◌, ◌∙◌, if◌then◌else◌,
}
use revu.LocalArchive.{
  PullState, opened, closed, PullSummary, ArchivableLocalReview, bare_branch_name, differs,
  supersedes, consider, superseding_from, superseding_pull, lower, max_safe_integer, is_open,
}
use revu.LocalArchive.Branches.{IsBranch, bare_branch_name_iff}

-- Two names agree: they are the same and not blank.
abbrev pub Agree : Text → Text → Type 0
Agree a b = (b ≡ a) × (is_empty a ≡ false)

differs_iff : (a b : Text) → (differs a b ≡ false) ↔ Agree a b
unfolding differs
differs_iff [] b = ground arith
differs_iff (c ∷ a) [] = ground arith
differs_iff (c ∷ a) (d ∷ b) = ground (arith, text_eq_iff (d ∷ b) (c ∷ a))

guards_iff :
    (a b c d e : Bool)
    → ((if a
          then false
          else if b
          then false
          else if c
          then false
          else if d
          then false
          else if e
          then false
          else true)
        ≡ true)
      ↔ ((a ≡ false) × (b ≡ false) × (c ≡ false) × (d ≡ false) × (e ≡ false))
guards_iff a b c d e = ground arith

is_open_iff : (s : PullState) → (not (is_open s) ≡ false) ↔ (s ≡ opened)
is_open_iff opened = ground arith
is_open_iff closed = ground arith

safe_iff :
    (n : ℕ) → ((ltb max_safe_integer n || n == 0) ≡ false) ↔ ((0 < n) × (n ≤ max_safe_integer))
safe_iff n = ground arith

-- Two refs name one branch, and its name is not blank.
abbrev pub SameBranch : Text → Text → Type 0
SameBranch r s = (name : Text) × (name ≢ []) × IsBranch r name × IsBranch s name

not_blank : (s : Text) → (is_empty s ≡ false) ↔ (s ≢ [])
not_blank [] = (λ e. cc, λ n. absurd (n refl))
not_blank (c ∷ s) = (λ e f. cc, λ n. refl)

Agree-SameBranch : (r s : Text) → Agree (bare_branch_name r) (bare_branch_name s) ↔ SameBranch r s
Agree-SameBranch r s = (
  λ (e, named). (
    bare_branch_name r,
    (not_blank (bare_branch_name r)).0 named,
    (bare_branch_name_iff r (bare_branch_name r)).0 refl,
    (bare_branch_name_iff s (bare_branch_name r)).0 e,
  ),
  λ (name, named, left, right).
      let e = (bare_branch_name_iff r name).1 left in
      let f = (bare_branch_name_iff s name).1 right in
      (f ∙ sym e, (not_blank (bare_branch_name r)).1 (λ blank. named (sym e ∙ blank))),
)

-- A pull request supersedes a review exactly when it is open, its number is positive and safe, its
-- head's repository is the review's but for case and not blank, and the heads of both name one
-- branch and the bases of both name one: what follows refs/heads/, what follows the remote's name
-- under refs/remotes/, or the ref itself when it stands under neither.
pub supersedes_iff :
    (review : ArchivableLocalReview) (pull : PullSummary)
    → (supersedes review pull ≡ true) ↔ (
        (pull.state ≡ opened)
        × (0 < pull.number)
        × (pull.number ≤ max_safe_integer)
        × Agree (to_lower review.repo) (to_lower pull.head.full_name)
        × SameBranch review.head_ref pull.head.ref
        × SameBranch review.base_ref pull.base.ref)
unfolding supersedes
supersedes_iff review pull =
    let repo = differs_iff (to_lower review.repo) (to_lower pull.head.full_name) in
    let head = differs_iff (bare_branch_name review.head_ref) (bare_branch_name pull.head.ref) in
    let base = differs_iff (bare_branch_name review.base_ref) (bare_branch_name pull.base.ref) in
    let heads = Agree-SameBranch review.head_ref pull.head.ref in
    let bases = Agree-SameBranch review.base_ref pull.base.ref in
    let all =
      guards_iff (not (is_open pull.state)) (ltb max_safe_integer pull.number || pull.number == 0)
        (differs (to_lower review.repo) (to_lower pull.head.full_name))
        (differs (bare_branch_name review.head_ref) (bare_branch_name pull.head.ref))
        (differs (bare_branch_name review.base_ref) (bare_branch_name pull.base.ref)) in
    let state = is_open_iff pull.state in
    let safe = safe_iff pull.number in
    (
      λ h.
          let (a, b, c, d, e) = all.0 h in
          let (low, high) = safe.0 b in
          (state.0 a, low, high, repo.0 c, heads.0 (head.0 d), bases.0 (base.0 e)),
      λ (a, low, high, c, d, e).
          all.1 (state.1 a, safe.1 (low, high), repo.1 c, head.1 (heads.1 d), base.1 (bases.1 e)),
    )

lower_lem :
    (winner : Option PullSummary) (p : PullSummary)
    → (u : PullSummary) × (lower winner p ≡ some u)
      × (u.number ≤ p.number)
      × ((v : PullSummary) → winner ≡ some v → u.number ≤ v.number)
      × ((winner ≡ some u) ⊎ (u ≡ p))
lower_lem none p = (p, refl, omega arith, λ v e. absurd (ground (arith, e)), inr refl)
lower_lem (some w) p = elim (Bool-cases (ltb p.number w.number)) [
  | inl e ↦ (
    p,
    rw e refl,
    omega arith,
    λ v same. (let at : w ≡ v = cc in subst (λ v. p.number ≤ v.number) at (ground arith)),
    inr refl,
  )
  | inr e ↦ (
    w,
    rw e refl,
    ground arith,
    λ v same. (let at : w ≡ v = cc in subst (λ v. w.number ≤ v.number) at (omega arith)),
    inl refl,
  )
]

module _ (review : ArchivableLocalReview) where
  -- What the loop answers from the winner so far and the pull requests that are left.
  abbrev IsChosen : Option PullSummary → List PullSummary → Option PullSummary → Type 0
  IsChosen winner ps none =
      (winner ≡ none) × ((p : PullSummary) → Contains p ps → supersedes review p ≡ false)
  IsChosen winner ps (some w) =
      ((winner ≡ some w) ⊎ (Contains w ps × (supersedes review w ≡ true)))
      × ((v : PullSummary) → winner ≡ some v → w.number ≤ v.number)
      × ((p : PullSummary) → Contains p ps → supersedes review p ≡ true → w.number ≤ p.number)

  IsChosen-skip :
      (winner : Option PullSummary) (p : PullSummary) (ps : List PullSummary)
      (r : Option PullSummary)
      → supersedes review p ≡ false
      → IsChosen winner ps r
      → IsChosen winner (p ∷ ps) r
  IsChosen-skip winner p ps none out (e, h) =
      (e, λ q m. elim m [ inl same ↦ rw same out | inr m ↦ h q m ])
  IsChosen-skip winner p ps (some w) out (from, low, rest) = (
    elim from [ inl e ↦ inl e | inr (m, s) ↦ inr (inr m, s) ],
    low,
    λ q m s. elim m [
      | inl same ↦ absurd (ground (arith, sym (ap (supersedes review) same) ∙ s, out))
      | inr m ↦ rest q m s
    ],
  )

  IsChosen-take :
      (winner : Option PullSummary) (p : PullSummary) (ps : List PullSummary)
      (r : Option PullSummary)
      → supersedes review p ≡ true
      → IsChosen (lower winner p) ps r
      → IsChosen winner (p ∷ ps) r
  IsChosen-take winner p ps none is (e, h) =
      let (u, at, le, below, either) = lower_lem winner p in absurd (ground (arith, sym e ∙ at))
  IsChosen-take winner p ps (some w) is (from, low, rest) =
      let (u, at, le, below, either) = lower_lem winner p in
      let w_le : w.number ≤ u.number = low u at in
      (
        elim from [
          | inl e ↦
              let same : u ≡ w = cc in
              elim either [
                | inl old ↦ inl (old ∙ ap some same)
                | inr new ↦ inr (inl (sym same ∙ new), ap (supersedes review) (sym same ∙ new) ∙ is)
              ]
          | inr (m, s) ↦ inr (inr m, s)
        ],
        λ v e. omega (arith, below v e),
        λ q m s. elim m [
          | inl same ↦ subst (λ q. w.number ≤ q.number) (sym same) (omega arith)
          | inr m ↦ rest q m s
        ],
      )

  IsChosen-step :
      (winner : Option PullSummary) (p : PullSummary) (ps : List PullSummary)
      (r : Option PullSummary)
      → IsChosen (consider review winner p) ps r
      → IsChosen winner (p ∷ ps) r
  IsChosen-step winner p ps r h = elim (Bool-cases (supersedes review p)) [
    | inl e ↦
        let at : consider review winner p ≡ lower winner p = rw e refl in
        IsChosen-take winner p ps r e (subst (λ x. IsChosen x ps r) at h)
    | inr e ↦
        let at : consider review winner p ≡ winner = rw e refl in
        IsChosen-skip winner p ps r e (subst (λ x. IsChosen x ps r) at h)
  ]

  superseding_from-IsChosen :
      (winner : Option PullSummary) (ps : List PullSummary)
      → IsChosen winner ps (superseding_from review winner ps)
  unfolding superseding_from
  superseding_from-IsChosen none [] = (refl, λ p m. absurd m)
  superseding_from-IsChosen (some w) [] = (
    inl refl,
    λ v e. (let same : w ≡ v = cc in subst (λ v. w.number ≤ v.number) same (omega arith)),
    λ p m. absurd m,
  )
  superseding_from-IsChosen winner (p ∷ ps) =
      IsChosen-step winner p ps _ (superseding_from-IsChosen (consider review winner p) ps)

  abbrev pub IsLowest : List PullSummary → Option PullSummary → Type 0
  IsLowest ps none = (p : PullSummary) → Contains p ps → supersedes review p ≡ false
  IsLowest ps (some w) =
      Contains w ps
      × (supersedes review w ≡ true)
      × ((p : PullSummary) → Contains p ps → supersedes review p ≡ true → w.number ≤ p.number)

  IsChosen-IsLowest :
      (ps : List PullSummary) (r : Option PullSummary) → IsChosen none ps r → IsLowest ps r
  IsChosen-IsLowest ps none (e, h) = h
  IsChosen-IsLowest ps (some w) (from, low, rest) = elim from [
    | inl e ↦ absurd (ground (arith, e))
    | inr (m, s) ↦ (m, s, rest)
  ]

  -- The pull request that is chosen is one of the list that supersedes the review, of the lowest
  -- number of those that do; none is chosen only when none of the list supersedes the review.
  pub superseding_pull-IsLowest : (ps : List PullSummary) → IsLowest ps (superseding_pull review ps)
  unfolding superseding_pull
  superseding_pull-IsLowest ps =
      IsChosen-IsLowest ps (superseding_from review none ps) (superseding_from-IsChosen none ps)

  abbrev pub number_of : Option PullSummary → Option ℕ
  number_of none = none
  number_of (some p) = some p.number

  same_number :
      (ps qs : List PullSummary)
      → ((p : PullSummary) → Contains p ps ↔ Contains p qs)
      → (r s : Option PullSummary) → IsLowest ps r
      → IsLowest qs s
      → number_of r ≡ number_of s
  same_number ps qs same none none h k = refl
  same_number ps qs same none (some w) h (m, is, low) =
      absurd (ground (arith, h w ((same w).1 m), is))
  same_number ps qs same (some v) none (m, is, low) k =
      absurd (ground (arith, k v ((same v).0 m), is))
  same_number ps qs same (some v) (some w) (m, is, low) (n, is', low') =
      ap some (omega (arith, low w ((same w).1 n) is', low' v ((same v).0 m) is))

  -- Two listings with the same pull requests, in whatever order and however often, give the same number.
  pub superseding_pull_order :
      (ps qs : List PullSummary)
      → ((p : PullSummary) → Contains p ps ↔ Contains p qs)
      → number_of (superseding_pull review ps) ≡ number_of (superseding_pull review qs)
  superseding_pull_order ps qs same =
      same_number ps qs same (superseding_pull review ps) (superseding_pull review qs)
        (superseding_pull-IsLowest ps) (superseding_pull-IsLowest qs)
