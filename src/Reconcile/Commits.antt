-- ===== src/Reconcile/Commits.antt =====
-- The commits that landed after the draft's head.
use revu.Prelude.{
  ℕ, suc, ◌+◌, ◌≡◌, ◌≢◌, refl, ap, ◌⊎◌, inl, inr, none, some, List, [], ◌∷◌, ◌++◌, drop, All, Text,
  text_eq, text_eq_iff, Bool-cases, arith,
}
use revu.Api.{CommitInfo}
use revu.Reconcile.{find_commit, after_index, new_commits_since}

module _ (head_sha : Text) where
  abbrev pub IsOther : CommitInfo → Type 0
  IsOther c = c.sha ≢ head_sha

  -- `new` is what follows the first commit with the head's SHA.
  pub record IsAfter (commits new : List CommitInfo) : Type 0 where
    pub before : List CommitInfo
    pub at : CommitInfo
    pub is_head : at.sha ≡ head_sha
    pub split : commits ≡ before ++ (at ∷ new)
    pub others : All IsOther before

  find_commit_lem :
      (commits : List CommitInfo)
      → (All IsOther commits × (find_commit head_sha commits ≡ none))
        ⊎ ((i : ℕ) × (find_commit head_sha commits ≡ some i)
            × IsAfter commits (drop (suc i) commits))
  unfolding find_commit
  find_commit_lem [] = inl (tt, refl)
  find_commit_lem (c ∷ cs) = elim (Bool-cases (text_eq c.sha head_sha)) [
    | inl e ↦ inr (
      0,
      rw e,
      record {
        before = [];
        at = c;
        is_head = (text_eq_iff c.sha head_sha).0 e;
        split = refl;
        others = tt;
      },
    )
    | inr e ↦
        let other : c.sha ≢ head_sha = λ h. cc ((text_eq_iff c.sha head_sha).1 h, e) in
        elim (find_commit_lem cs) [
          | inl (all, n) ↦ inl ((other, all), rw (e, n))
          | inr (i, s, after) ↦ inr (
            suc i,
            rw (e, s),
            record {
              before = c ∷ after.before;
              at = after.at;
              is_head = after.is_head;
              split = ap (λ t. c ∷ t) after.split;
              others = (other, after.others);
            },
          )
        ]
  ]

-- When the draft's head is among the commits, the new ones are exactly those after its first
-- occurrence; when it is not, every commit is new.
pub new_commits_since_lem :
    (head_sha : Text) (commits : List CommitInfo)
    → IsAfter head_sha commits (new_commits_since head_sha commits)
      ⊎ (All (IsOther head_sha) commits × (new_commits_since head_sha commits ≡ commits))
unfolding new_commits_since
new_commits_since_lem head_sha commits = elim (find_commit_lem head_sha commits) [
  | inl (all, n) ↦ inr (all, rw (n, after_index))
  | inr (i, s, after) ↦
      inl (rw (s, after_index) (let n : i + 1 ≡ suc i = omega arith in rw n after))
]
