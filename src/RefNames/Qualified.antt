-- ===== src/RefNames/Qualified.antt =====
-- What the check accepts, and that a qualified name is as valid as the bare one.
use revu.Prelude.{
  ◌≡◌, refl, ◌∙◌, Bool, true, false, ◌||◌, ◌↔◌, inl, inr, Bool-cases, [], ◌∷◌, ◌++◌, any,
  if◌then◌else◌, Text, codes, text_eq, is_empty, starts_with, ends_with, ends_with-append, split_on,
  arith,
}
use revu.RefNames.{
  includes, is_refused_char, is_refused_component, is_valid_ref_name, normalize_ref_name,
}

abbrev IsAccepted : Text → Type 0
IsAccepted ref =
    (is_empty ref ≡ false)
    × (text_eq ref (codes "@") ≡ false)
    × (starts_with ref (codes "-") ≡ false)
    × (starts_with ref (codes "/") ≡ false)
    × (ends_with ref (codes "/") ≡ false)
    × (ends_with ref (codes ".") ≡ false)
    × (includes ref (codes "..") ≡ false)
    × (includes ref (codes "//") ≡ false)
    × (includes ref (codes "@{") ≡ false)
    × (any is_refused_char ref ≡ false)
    × (any is_refused_component (split_on b'/' ref) ≡ false)

refusals_iff :
    (a b c d e f g h i j k : Bool)
    → ((if a || b
          then false
          else if c
          then false
          else if d || e
          then false
          else if f
          then false
          else if g || h || i
          then false
          else if j
          then false
          else if k
          then false
          else true)
        ≡ true)
      ↔ ((a ≡ false)
          × (b ≡ false)
          × (c ≡ false)
          × (d ≡ false)
          × (e ≡ false)
          × (f ≡ false)
          × (g ≡ false)
          × (h ≡ false)
          × (i ≡ false)
          × (j ≡ false)
          × (k ≡ false))
refusals_iff a b c d e f g h i j k = ground arith

is_valid_ref_name_iff : (ref : Text) → (is_valid_ref_name ref ≡ true) ↔ IsAccepted ref
unfolding is_valid_ref_name
is_valid_ref_name_iff ref =
    refusals_iff (is_empty ref) (text_eq ref (codes "@")) (starts_with ref (codes "-"))
      (starts_with ref (codes "/")) (ends_with ref (codes "/")) (ends_with ref (codes "."))
      (includes ref (codes "..")) (includes ref (codes "//")) (includes ref (codes "@{"))
      (any is_refused_char ref) (any is_refused_component (split_on b'/' ref))

or-eq-false : (a b : Bool) → a ≡ false → b ≡ false → (a || b) ≡ false
or-eq-false a b h k = ground (arith, h, k)

prefixed-IsAccepted : (ref : Text) → IsAccepted ref → IsAccepted (codes "refs/heads/" ++ ref)
unfolding text_eq starts_with includes split_on ends_with
prefixed-IsAccepted [] a = absurd (ground (arith, a.0))
prefixed-IsAccepted (c ∷ s) (_, _, _, slash, last, dot, dots, slashes, at, chars, parts) =
    let end = ends_with-append (codes "refs/heads/") (c ∷ s) in
    (
      refl,
      refl,
      refl,
      refl,
      end (codes "/") (omega arith) ∙ last,
      end (codes ".") (omega arith) ∙ dot,
      dots,
      or-eq-false _ _ slash slashes,
      at,
      chars,
      parts,
    )

-- A name that the check accepts stays acceptable once it is qualified: the result passes the check,
-- stands under refs/, and qualifying it again changes nothing.
pub is_valid_ref_name-normalize_ref_name :
    (ref : Text)
    → is_valid_ref_name ref ≡ true
    → (is_valid_ref_name (normalize_ref_name ref) ≡ true)
      × (starts_with (normalize_ref_name ref) (codes "refs/") ≡ true)
      × (normalize_ref_name (normalize_ref_name ref) ≡ normalize_ref_name ref)
unfolding normalize_ref_name starts_with
is_valid_ref_name-normalize_ref_name ref e = elim (Bool-cases (starts_with ref (codes "refs/"))) [
  | inl under ↦ rw (under, under) (e, refl, refl)
  | inr bare ↦
      let valid =
        (is_valid_ref_name_iff (codes "refs/heads/" ++ ref)).1
          (prefixed-IsAccepted ref ((is_valid_ref_name_iff ref).0 e)) in
      rw bare (valid, refl, refl)
]
