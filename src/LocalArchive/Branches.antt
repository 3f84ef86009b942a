-- ===== src/LocalArchive/Branches.antt =====
-- bareBranchName: the branch that a ref names.
use revu.Prelude.{
  ℕ, ◌≡◌, ◌≢◌, refl, sym, ap, ◌∙◌, true, false, Bool-cases, inl, inr, ◌⊎◌, ◌↔◌, none, some, [], ◌∷◌,
  ◌++◌, All, Text, starts_with, ==_iff, ◌==◌, arith, subst,
}
use revu.LocalArchive.{after_slash, heads_prefix, remotes_prefix, or_whole, bare_branch_name}

abbrev pub IsPlain : Text → Type 0
IsPlain s = All (λ c. c ≢ b'/') s

-- A ref names a branch: as a local one, as one that a remote has (whose name has no slash) or under
-- the remotes with no branch after the remote, or, where it stands under neither, by itself.
pub data IsBranch : Text → Text → Type 0 where
  local_branch : (name : Text) → IsBranch (heads_prefix ++ name) name
  remote_branch :
      (remote name : Text)
      → IsPlain remote
      → IsBranch (remotes_prefix ++ (remote ++ (b'/' ∷ name))) name
  remote_alone : (name : Text) → IsPlain name → IsBranch (remotes_prefix ++ name) name
  bare :
      (name : Text)
      → starts_with name heads_prefix ≡ false
      → starts_with name remotes_prefix ≡ false
      → IsBranch name name

starts_with-eq : (s t : Text) → starts_with s t ≡ true → (rest : Text) × (s ≡ t ++ rest)
unfolding starts_with
starts_with-eq s [] h = (s, refl)
starts_with-eq [] (d ∷ t) h = cc
starts_with-eq (c ∷ s) (d ∷ t) h =
    let same : c ≡ d = (==_iff c d).0 (ground (arith, h)) in
    let (rest, e) = starts_with-eq s t (ground (arith, h)) in (rest, cc)

not_slash : (c : ℕ) → c ≢ b'/' → (c == b'/') ≡ false
not_slash c h = elim (Bool-cases (c == b'/')) [
  | inl e ↦ absurd (h ((==_iff c b'/').0 e))
  | inr e ↦ e
]

after_slash-some :
    (remote name : Text) → IsPlain remote → after_slash (remote ++ (b'/' ∷ name)) ≡ some name
unfolding after_slash
after_slash-some [] name h = refl
after_slash-some (c ∷ remote) name (plain, h) =
    rw (not_slash c plain) (after_slash-some remote name h)

after_slash-none : (s : Text) → IsPlain s → after_slash s ≡ none
unfolding after_slash
after_slash-none [] h = refl
after_slash-none (c ∷ s) (plain, h) = rw (not_slash c plain) (after_slash-none s h)

-- Where the first slash stands, if there is one.
slash-cases :
    (s : Text) → ((remote name : Text) × IsPlain remote × (s ≡ remote ++ (b'/' ∷ name))) ⊎ IsPlain s
slash-cases [] = inr tt
slash-cases (c ∷ s) = elim (Bool-cases (c == b'/')) [
  | inl e ↦ inl ([], s, tt, ap (λ d. d ∷ s) ((==_iff c b'/').0 e))
  | inr e ↦
      let differ : c ≢ b'/' = λ same. (let at = (==_iff c b'/').1 same in cc) in
      elim (slash-cases s) [
        | inl (remote, name, plain, at) ↦
            inl (c ∷ remote, name, (differ, plain), ap (λ t. c ∷ t) at)
        | inr plain ↦ inr (differ, plain)
      ]
]

bare_branch_name-local : (name : Text) → bare_branch_name (heads_prefix ++ name) ≡ name
unfolding bare_branch_name starts_with
bare_branch_name-local name = refl

bare_branch_name-remote :
    (rest : Text) → bare_branch_name (remotes_prefix ++ rest) ≡ or_whole rest (after_slash rest)
unfolding bare_branch_name starts_with
bare_branch_name-remote rest = refl

under_remotes :
    (rest : Text) → IsBranch (remotes_prefix ++ rest) (bare_branch_name (remotes_prefix ++ rest))
under_remotes rest = rw (bare_branch_name-remote rest) (elim (slash-cases rest) [
  | inl (remote, name, plain, at) ↦
      rw (at, after_slash-some remote name plain) (remote_branch remote name plain)
  | inr plain ↦ rw (after_slash-none rest plain) (remote_alone rest plain)
])

branch_of : (ref : Text) → IsBranch ref (bare_branch_name ref)
unfolding bare_branch_name
branch_of ref = elim (Bool-cases (starts_with ref heads_prefix)) [
  | inl e ↦
      let (name, at) = starts_with-eq ref heads_prefix e in
      subst (λ r. IsBranch r (bare_branch_name r)) (sym at)
        (subst (IsBranch (heads_prefix ++ name)) (sym (bare_branch_name-local name))
          (local_branch name))
  | inr not_local ↦ elim (Bool-cases (starts_with ref remotes_prefix)) [
    | inl e ↦
        let (rest, at) = starts_with-eq ref remotes_prefix e in
        subst (λ r. IsBranch r (bare_branch_name r)) (sym at) (under_remotes rest)
    | inr not_remote ↦ rw (bare_branch_name, not_local, not_remote) (bare ref not_local not_remote)
  ]
]

IsBranch-eq : (ref name : Text) → IsBranch ref name → bare_branch_name ref ≡ name
unfolding bare_branch_name
IsBranch-eq ref name (local_branch n) = bare_branch_name-local name
IsBranch-eq ref name (remote_branch remote n plain) =
    bare_branch_name-remote (remote ++ (b'/' ∷ name)) ∙ rw (after_slash-some remote name plain) refl
IsBranch-eq ref name (remote_alone n plain) =
    bare_branch_name-remote name ∙ rw (after_slash-none name plain) refl
IsBranch-eq ref name (bare n a b) = rw (a, b) refl

-- The branch that a ref names is the one that the code computes, and no other.
pub bare_branch_name_iff : (ref name : Text) → (bare_branch_name ref ≡ name) ↔ IsBranch ref name
bare_branch_name_iff ref name = (λ e. subst (IsBranch ref) e (branch_of ref), IsBranch-eq ref name)
