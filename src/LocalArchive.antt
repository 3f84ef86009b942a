-- ===== src/LocalArchive.antt =====
-- local-archive.ts: when a pull request supersedes a local review. A pull request has the fields that
-- the comparison reads; its number is a natural number (one that is missing is 0).
pub mod Branches
pub mod Choice
mod Tests
use revu.Prelude.{
  ℕ, ltb, ◌==◌, ◌||◌, not, if◌then◌else◌, Bool, true, false, Option, none, some, List, [], ◌∷◌,
  drop, length, Text, codes, text_eq, is_empty, starts_with, to_lower,
}

pub data PullState : Type 0 where
  opened closed : PullState

pub record GhRef : Type 0 where
  pub ref : Text
  pub full_name : Text

pub record PullSummary : Type 0 where
  pub number : ℕ
  pub state : PullState
  pub head : GhRef
  pub base : GhRef

pub record ArchivableLocalReview : Type 0 where
  pub repo : Text
  pub base_ref : Text
  pub head_ref : Text

abbrev pub heads_prefix : Text
heads_prefix = codes "refs/heads/"

abbrev pub remotes_prefix : Text
remotes_prefix = codes "refs/remotes/"

-- What follows the first slash; `none` when there is none.
pub after_slash : Text → Option Text
after_slash [] = none
after_slash (c ∷ s) = let rest = after_slash s in if c == b'/' then some s else rest

abbrev pub or_whole : Text → Option Text → Text
or_whole s none = s
or_whole s (some t) = t

pub bare_branch_name : Text → Text
unfolding after_slash starts_with
bare_branch_name ref =
    let without_prefix = drop (length remotes_prefix) ref in
    if starts_with ref heads_prefix
    then drop (length heads_prefix) ref
    else if starts_with ref remotes_prefix
    then or_whole without_prefix (after_slash without_prefix)
    else ref

abbrev max_safe_integer : ℕ
max_safe_integer = 9007199254740991

abbrev pub is_open : PullState → Bool
is_open opened = true
is_open closed = false

-- `a === '' || b === '' || b !== a`
pub differs : Text → Text → Bool
differs a b = is_empty a || is_empty b || not (text_eq b a)

pub supersedes : ArchivableLocalReview → PullSummary → Bool
unfolding bare_branch_name differs to_lower
supersedes review pull =
    if not (is_open pull.state)
    then false
    else if ltb max_safe_integer pull.number || pull.number == 0
    then false
    else if differs (to_lower review.repo) (to_lower pull.head.full_name)
    then false
    else if differs (bare_branch_name review.head_ref) (bare_branch_name pull.head.ref)
    then false
    else if differs (bare_branch_name review.base_ref) (bare_branch_name pull.base.ref)
    then false
    else true

abbrev pub lower : Option PullSummary → PullSummary → Option PullSummary
lower none candidate = some candidate
lower (some winner) candidate =
    if ltb candidate.number winner.number then some candidate else some winner

-- One round of the loop over the pull requests.
abbrev pub consider : ArchivableLocalReview → Option PullSummary → PullSummary → Option PullSummary
consider review winner candidate =
    if not (supersedes review candidate) then winner else lower winner candidate

pub superseding_from :
    ArchivableLocalReview → Option PullSummary → List PullSummary → Option PullSummary
unfolding supersedes
superseding_from review winner [] = winner
superseding_from review winner (p ∷ ps) = superseding_from review (consider review winner p) ps

pub superseding_pull : ArchivableLocalReview → List PullSummary → Option PullSummary
unfolding superseding_from
superseding_pull review pulls = superseding_from review none pulls
