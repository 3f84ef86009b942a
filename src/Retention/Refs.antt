-- ===== src/Retention/Refs.antt =====
-- retention.ts, `dropPinnedRefs`: removing the refs that pin one local review. Git is a parameter
-- with a state of its own: one call lists the refs under a prefix, one deletes a ref.
pub mod Prefix
use revu.Prelude.{
  ℕ, ◌≡◌, refl, sym, arith, ◌∙◌, Bool, true, false, not, Bool-cases, inl, inr, ◌⊎◌, Option, none,
  some, Option-cases, List, [], ◌∷◌, ◌++◌, filter, All, Text, codes, is_empty, leb, length,
  split_on, starts_with, if◌then◌else◌, find,
}

-- What a git call answers: its output, or an error text.
pub data GitResult : Type 0 where
  done : Text → GitResult
  broke : Text → GitResult

pub record Git (W : Type 0) : Type 0 where
  pub list_refs : Text → W → GitResult × W
  pub delete_ref : Text → W → GitResult × W

pub data DropFailureReason : Type 0 where
  invalid_local_id unexpected_ref git_failed : DropFailureReason

-- In a failure, the refs that were dropped before it.
pub data DropResult : Type 0 where
  dropped_all : List Text → DropResult
  drop_failed : DropFailureReason → List Text → DropResult

abbrev pub local_review_id_base : ℕ
local_review_id_base = 1000000000

abbrev pub is_local_review_id : ℕ → Bool
is_local_review_id n = leb local_review_id_base n

-- `refs/revu/reviews/<id>/`; `digits` writes a number in decimal.
abbrev pub pin_prefix : (ℕ → Text) → ℕ → Text
pin_prefix digits n = codes "refs/revu/reviews/" ++ (digits n ++ (b'/' ∷ []))

module _ {W : Type 0} (git : Git W) (digits : ℕ → Text) where
  pub drop_loop : List Text → List Text → W → DropResult × W
  drop_loop [] dropped w = (dropped_all dropped, w)
  drop_loop (ref ∷ refs) dropped w =
      let (result, w') = git.delete_ref ref w in
      elim result [
        | done _ ↦ drop_loop refs (dropped ++ (ref ∷ [])) w'
        | broke _ ↦ (drop_failed git_failed dropped, w')
      ]

  pub drop_listed : Text → Text → W → DropResult × W
  unfolding drop_loop
  drop_listed prefix stdout w =
      let refs = filter (λ line. not (is_empty line)) (split_on 10 stdout) in
      elim (find (λ ref. not (starts_with ref prefix)) refs) [
        | some stray ↦ (drop_failed unexpected_ref [], w)
        | none ↦ drop_loop refs [] w
      ]

  pub drop_pinned_refs : ℕ → W → DropResult × W
  unfolding drop_listed
  drop_pinned_refs local_id w =
      if not (is_local_review_id local_id)
      then (drop_failed invalid_local_id [], w)
      else (let (listed, w') = git.list_refs (pin_prefix digits local_id) w in
          elim listed [
            | broke _ ↦ (drop_failed git_failed [], w')
            | done stdout ↦ drop_listed (pin_prefix digits local_id) stdout w'
          ])

-- The refs that a result says are gone.
abbrev pub gone : DropResult → List Text
gone (dropped_all refs) = refs
gone (drop_failed reason refs) = refs
