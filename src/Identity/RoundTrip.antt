-- ===== src/Identity/RoundTrip.antt =====
-- The broker's prefix, written and parsed.
use revu.Prelude.{
  ℕ, ◌≡◌, refl, ap, ◌∙◌, Bool, true, false, Option, none, some, [], ◌∷◌, ◌++◌, all, if◌then◌else◌,
  Text, codes, trim_end, is_space, arith,
}
use revu.Identity.{
  Role, contractor, lead, role_text, Human, trim, span, within, in_name, name_part, role_part,
  named, trimmed, match_prefix, looks_like_person_name, parse_prefixed_body, prefix_body,
}

-- A run of characters of a class, up to the first that is not.
span-append :
    (p : ℕ → Bool) (s t : Text) (d : ℕ)
    → all p s ≡ true
    → p d ≡ false
    → span p (s ++ (d ∷ t)) ≡ (s, d ∷ t)
span-append p [] t d run stop = rw stop refl
span-append p (c ∷ s) t d run stop =
    let head : p c ≡ true = ground (arith, run) in
    let rest = span-append p s t d (ground (arith, run)) stop in rw (head, rest) refl

-- What follows the name in a body with a prefix.
abbrev after_name : Human → Text → Text
after_name author markdown = codes " (" ++ (role_text author.role ++ (b')' ∷ 10 ∷ 10 ∷ markdown))

name_part-prefix_body :
    (author : Human) (markdown : Text)
    → all in_name author.name ≡ true
    → within 140 author.name ≡ true
    → name_part (prefix_body author markdown) ≡ some (author.name, after_name author markdown)
unfolding prefix_body
name_part-prefix_body author markdown run size =
    let split = span-append in_name author.name (b'*' ∷ after_name author markdown) b'*' run refl in
    ap named split ∙ rw size refl

role_part-after_name :
    (role : Role) (markdown : Text)
    → role_part (codes " (" ++ (role_text role ++ (b')' ∷ 10 ∷ 10 ∷ markdown)))
      ≡ some (role_text role, 10 ∷ 10 ∷ markdown)
role_part-after_name contractor markdown = refl
role_part-after_name lead markdown = refl

pub match_prefix-prefix_body :
    (author : Human) (markdown : Text)
    → all in_name author.name ≡ true
    → within 140 author.name ≡ true
    → match_prefix (prefix_body author markdown)
      ≡ some (author.name, some (role_text author.role), markdown)
unfolding match_prefix
match_prefix-prefix_body author markdown run size =
    let name = name_part-prefix_body author markdown run size in
    let role = role_part-after_name author.role markdown in rw (match_prefix, name, role) refl

trim-role_text : (role : Role) → trim (role_text role) ≡ role_text role
unfolding trim_end is_space
trim-role_text contractor = refl
trim-role_text lead = refl

abbrev judged : (ℕ → Bool) → Text → Option Text → Text → Option (Text × Option Text × Text)
judged is_letter name role rest =
    if looks_like_person_name is_letter name then some (name, role, rest) else none

parse_prefixed_body-matched :
    (is_letter : ℕ → Bool) (body raw : Text) (role : Option Text) (rest : Text)
    → match_prefix body ≡ some (raw, role, rest)
    → parse_prefixed_body is_letter body ≡ judged is_letter (trim raw) (trimmed is_letter role) rest
unfolding parse_prefixed_body
parse_prefixed_body-matched is_letter body raw role rest h = rw (parse_prefixed_body, h) refl

-- A body that the prefix of a human was put before parses to the human's name and role and the same
-- markdown when the name looks like a person's, and to nothing when it does not. The name has at
-- most 140 characters, none of them a star or a line feed, and no white space at its ends.
pub parse_prefixed_body-prefix_body :
    (is_letter : ℕ → Bool) (author : Human) (markdown : Text)
    → all in_name author.name ≡ true
    → within 140 author.name ≡ true
    → trim author.name ≡ author.name
    → parse_prefixed_body is_letter (prefix_body author markdown) ≡ (
        if looks_like_person_name is_letter author.name
        then some (author.name, some (role_text author.role), markdown)
        else none)
parse_prefixed_body-prefix_body is_letter author markdown run size bare =
    let found = match_prefix-prefix_body author markdown run size in
    let role = trim-role_text author.role in
    parse_prefixed_body-matched is_letter (prefix_body author markdown) author.name
      (some (role_text author.role)) markdown found
    ∙ ap (λ n. judged is_letter n (some (trim (role_text author.role))) markdown) bare
    ∙ ap (λ r. judged is_letter author.name (some r) markdown) role
