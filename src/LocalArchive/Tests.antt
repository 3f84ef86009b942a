-- ===== src/LocalArchive/Tests.antt =====
-- Two pull requests over the branches of a review, and what the theorems say of the choice.
use revu.Prelude.{ℕ, ◌≡◌, ◌<◌, ◌≤◌, ◌↔◌, [], ◌∷◌, true, codes, to_lower}
use revu.LocalArchive.{
  PullState, PullSummary, ArchivableLocalReview, max_safe_integer, supersedes, superseding_pull,
}
use revu.LocalArchive.Choice.{
  Agree, SameBranch, IsLowest, supersedes_iff, superseding_pull-IsLowest,
}

abbrev review : ArchivableLocalReview
review = record {
  repo = codes "o/n";
  base_ref = codes "refs/remotes/o/m";
  head_ref = codes "refs/heads/f";
}

abbrev pull : ℕ → PullSummary
pull n = record {
  number = n;
  state = PullState.opened;
  head = record { ref = codes "f"; full_name = codes "O/N" };
  base = record { ref = codes "m"; full_name = codes "O/N" };
}

supersedes_iff_example : (supersedes review (pull 4) ≡ true) ↔ (
    (PullState.opened ≡ PullState.opened)
    × (0 < (pull 4).number)
    × ((pull 4).number ≤ max_safe_integer)
    × Agree (to_lower (codes "o/n")) (to_lower (codes "O/N"))
    × SameBranch (codes "refs/heads/f") (codes "f")
    × SameBranch (codes "refs/remotes/o/m") (codes "m"))
supersedes_iff_example = supersedes_iff review (pull 4)

superseding_pull-IsLowest_example :
    IsLowest review (pull 9 ∷ pull 4 ∷ []) (superseding_pull review (pull 9 ∷ pull 4 ∷ []))
superseding_pull-IsLowest_example = superseding_pull-IsLowest review (pull 9 ∷ pull 4 ∷ [])
