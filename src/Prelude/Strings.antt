-- ===== src/Prelude/Strings.antt =====
-- JavaScript strings as lists of UTF-16 code units, with the string methods that the source calls.
use Prim.Native.Nat.{ℕ, suc, ◌-◌, ◌+◌, ◌≤◌}
use Prim.Native.Char.{code}
use Prim.Native.String.{String}
use mathlib.Core.Path.{◌≡◌, refl, ap, sym, ◌∙◌}
use mathlib.Core.Logic.{◌↔◌}
use mathlib.Core.Bool.{Bool, true, false, ◌&&◌, ◌||◌}
use mathlib.Core.List.{List, [], ◌∷◌, ◌++◌}
use mathlib.Core.Option.{Option, none, some}
use native.Mathlib.Omega.{arith}
use revu.Prelude.Tests.{◌==◌, leb, if◌then◌else◌}
use revu.Prelude.Lists.{length, drop, take, take-append-drop, length-append, drop-append}

abbrev pub Text : Type 0
Text = List ℕ

-- The code units of a literal (its characters lie in the basic plane).
abbrev pub codes : String → Text
codes String.[] = []
codes (String.◌∷◌ c s) = code c ∷ codes s

unfoldable pub text_eq : Text → Text → Bool
text_eq [] [] = true
text_eq [] (d ∷ t) = false
text_eq (c ∷ s) [] = false
text_eq (c ∷ s) (d ∷ t) = (c == d) && text_eq s t

pub text_eq_iff : (s t : Text) → (text_eq s t ≡ true) ↔ (s ≡ t)
unfolding text_eq
text_eq_iff [] [] = ground arith
text_eq_iff [] (d ∷ t) = ground arith
text_eq_iff (c ∷ s) [] = ground arith
text_eq_iff (c ∷ s) (d ∷ t) = ground (arith, text_eq_iff s t)

-- The white space and line terminators that `trim` and `trimEnd` strip.
unfoldable pub is_space : ℕ → Bool
is_space c =
    (leb 9 c && leb c 13)
    || c == 32
    || c == 160
    || c == 0x1680
    || (leb 0x2000 c && leb c 0x200a)
    || c == 0x2028
    || c == 0x2029
    || c == 0x202f
    || c == 0x205f
    || c == 0x3000
    || c == 0xfeff

abbrev pub is_empty {ℓ} : {A : Type ℓ} → List A → Bool
is_empty [] = true
is_empty (x ∷ xs) = false

-- `s.trimEnd()`
unfoldable pub trim_end : Text → Text
unfolding is_space
trim_end [] = []
trim_end (c ∷ s) = let rest = trim_end s in if is_empty rest && is_space c then [] else c ∷ rest

abbrev onto_first : ℕ → List Text → List Text
onto_first c [] = (c ∷ []) ∷ []
onto_first c (w ∷ ws) = (c ∷ w) ∷ ws

-- `s.split(sep)` for a separator of one code unit.
unfoldable pub split_on : ℕ → Text → List Text
split_on sep [] = [] ∷ []
split_on sep (c ∷ s) =
    let rest = split_on sep s in if c == sep then [] ∷ rest else onto_first c rest

-- `s.endsWith(t)`
unfoldable pub ends_with : Text → Text → Bool
unfolding text_eq
ends_with s t = leb (length t) (length s) && text_eq (drop (length s - length t) s) t

le→leb_and : (m n : ℕ) → (leb n (m + n) && true) ≡ true
le→leb_and m n = ground arith

pub ends_with_iff : (s t : Text) → (ends_with s t ≡ true) ↔ ((r : Text) × (s ≡ r ++ t))
unfolding ends_with
ends_with_iff s t = (
  λ h. (
    take (length s - length t) s,
    sym (take-append-drop (length s - length t) s)
        ∙ ap (λ u. take (length s - length t) s ++ u) ((text_eq_iff _ t).0 (ground arith)),
  ),
  λ (r, e).
      rw (e, length-append r t)
        (let n : length r + length t - length t ≡ length r = omega arith in
          rw (n, drop-append r t, (text_eq_iff t t).1 refl) (le→leb_and (length r) (length t))),
)

ends_with-cons : (c : ℕ) (s t : Text) → length t ≤ length s → ends_with (c ∷ s) t ≡ ends_with s t
unfolding ends_with
ends_with-cons c s t h =
    let n : suc (length s) - length t ≡ suc (length s - length t) = omega arith in
    let l : leb (length t) (suc (length s)) ≡ leb (length t) (length s) = ground (arith, h) in
    rw (n, l) refl

pub ends_with-append : (p s t : Text) → length t ≤ length s → ends_with (p ++ s) t ≡ ends_with s t
ends_with-append [] s t h = refl
ends_with-append (c ∷ p) s t h =
    ends_with-cons c (p ++ s) t (omega (arith, length-append p s, h)) ∙ ends_with-append p s t h

-- `s.startsWith(t)`
unfoldable pub starts_with : Text → Text → Bool
starts_with s [] = true
starts_with [] (d ∷ t) = false
starts_with (c ∷ s) (d ∷ t) = (c == d) && starts_with s t

abbrev later : Option ℕ → Bool → Option ℕ
later (some i) here = some (suc i)
later none true = some 0
later none false = none

-- `s.lastIndexOf(c)` of one code unit; `none` is -1.
pub last_index_of : ℕ → Text → Option ℕ
last_index_of c [] = none
last_index_of c (d ∷ s) = later (last_index_of c s) (d == c)

-- `s.toLowerCase()` on ASCII letters.
abbrev lower_unit : ℕ → ℕ
lower_unit c = if leb b'A' c && leb c b'Z' then c + 32 else c

unfoldable pub to_lower : Text → Text
to_lower [] = []
to_lower (c ∷ s) = lower_unit c ∷ to_lower s
