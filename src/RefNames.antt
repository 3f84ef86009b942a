-- ===== src/RefNames.antt =====
-- The syntactic check of ref names, and their qualification (packages/shared/src/lib/refs.ts). The
-- source reads code points; the characters it refuses are single code units.
pub mod Qualified
mod Tests
use revu.Prelude.{
  ℕ, Bool, true, false, ◌||◌, [], ◌∷◌, ◌++◌, any, if◌then◌else◌, Text, codes, text_eq, is_empty,
  ◌==◌, ltb, starts_with, ends_with, split_on,
}

-- `s.includes(t)`
unfoldable pub includes : Text → Text → Bool
unfolding starts_with
includes [] t = starts_with [] t
includes (c ∷ s) t = starts_with (c ∷ s) t || includes s t

abbrev pub is_forbidden_char : ℕ → Bool
is_forbidden_char c = any (λ d. c == d) (codes " ~^:?*[\\")

abbrev pub is_refused_char : ℕ → Bool
is_refused_char c = (ltb c 0x20 || c == 0x7f) || is_forbidden_char c

abbrev pub is_refused_component : Text → Bool
is_refused_component component =
    starts_with component (codes ".") || ends_with component (codes ".lock")

pub is_valid_ref_name : Text → Bool
is_valid_ref_name ref =
    if is_empty ref || text_eq ref (codes "@")
    then false
    else if starts_with ref (codes "-")
    then false
    else if starts_with ref (codes "/") || ends_with ref (codes "/")
    then false
    else if ends_with ref (codes ".")
    then false
    else if includes ref (codes "..") || includes ref (codes "//") || includes ref (codes "@{")
    then false
    else if any is_refused_char ref
    then false
    else if any is_refused_component (split_on b'/' ref)
    then false
    else true

pub normalize_ref_name : Text → Text
normalize_ref_name ref = if starts_with ref (codes "refs/") then ref else codes "refs/heads/" ++ ref
