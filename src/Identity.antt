-- ===== src/Identity.antt =====
-- Who wrote a comment (packages/shared/src/lib/identity.ts): the name that the broker prepends to a
-- body, its parser, and which comments are the session human's own. Bodies are of characters of the
-- basic plane, so a character is one code unit. `is_letter` is the class \p{L}\p{N}.
pub mod RoundTrip
pub mod Own
mod Tests
use revu.Prelude.{
  ℕ, suc, ◌+◌, Bool, true, false, not, ◌&&◌, ◌||◌, Option, none, some, List, [], ◌∷◌, ◌++◌, all,
  if◌then◌else◌, length, Text, codes, text_eq, trim_end, to_lower, is_space, is_empty, ◌==◌, leb,
}

pub record GhUser : Type 0 where
  pub login : Text

pub data Role : Type 0 where
  contractor lead : Role

abbrev pub role_text : Role → Text
role_text contractor = codes "contractor"
role_text lead = codes "lead"

pub record Human : Type 0 where
  pub id : Text
  pub name : Text
  pub role : Role

pub data CommentIdentity : Type 0 where
  human : Text → Option Text → CommentIdentity
  github bot : GhUser → CommentIdentity

pub record ParsedComment : Type 0 where
  pub identity : CommentIdentity
  pub body : Text

abbrev pub trim_start : Text → Text
trim_start [] = []
trim_start (c ∷ s) = let rest = trim_start s in if is_space c then rest else c ∷ s

-- `s.trim()`
abbrev pub trim : Text → Text
trim s = trim_end (trim_start s)

pub email_to_id : Text → Text
email_to_id email = to_lower (trim email)

-- The longest beginning of such characters, and what follows it.
abbrev pub span : (ℕ → Bool) → Text → Text × Text
span p [] = ([], [])
span p (c ∷ s) = let rest = span p s in if p c then (c ∷ rest.0, rest.1) else ([], c ∷ s)

abbrev pub within : ℕ → Text → Bool
within most s = leb 1 (length s) && leb (length s) most

abbrev pub stars : Text → Option Text
stars [] = none
stars (c ∷ []) = none
stars (c ∷ d ∷ s) = if c == b'*' && d == b'*' then some s else none

abbrev pub is_blank : ℕ → Bool
is_blank c = c == 32 || c == 9

abbrev pub in_name : ℕ → Bool
in_name c = not (c == b'*') && not (c == 10)

abbrev pub in_role : ℕ → Bool
in_role c = not (c == b')') && not (c == 10)

abbrev pub named : Text × Text → Option (Text × Text)
named (name, after) =
    if within 140 name
    then elim (stars after) [ none ↦ none | some rest ↦ some (name, rest) ]
    else none

-- \*\*([^*\n]{1,140})\*\*
abbrev pub name_part : Text → Option (Text × Text)
name_part s = elim (stars s) [ none ↦ none | some inner ↦ named (span in_name inner) ]

abbrev closed : Text → Text → Option (Text × Text)
closed role [] = none
closed role (c ∷ s) = if c == b')' then some (role, s) else none

abbrev opened : Text → Option (Text × Text)
opened [] = none
opened (c ∷ s) =
    let (role, after) = span in_role s in
    if c == b'(' && within 32 role then closed role after else none

-- [ \t]*\(([^)\n]{1,32})\)
abbrev pub role_part : Text → Option (Text × Text)
role_part s = opened (span is_blank s).1

abbrev newline : Text → Option Text
newline [] = none
newline (c ∷ s) = if c == 10 then some s else none

abbrev carriage : Text → Option Text
carriage [] = none
carriage (c ∷ s) = if c == 13 then newline s else newline (c ∷ s)

-- [ \t]*\r?\n
abbrev pub line_end : Text → Option Text
line_end s = carriage (span is_blank s).1

abbrev pub two_line_ends : Text → Option Text
two_line_ends s = elim (line_end s) [ none ↦ none | some rest ↦ line_end rest ]

-- PREFIX_RE.exec: the name, the role and what follows the blank line. The characters that end a run
-- are not in the run, so a shorter run is never tried with success, nor is a role left out.
pub match_prefix : Text → Option (Text × Option Text × Text)
match_prefix body = elim (name_part body) [
  | none ↦ none
  | some (name, after) ↦ elim (role_part after) [
    | none ↦ elim (two_line_ends after) [ none ↦ none | some rest ↦ some (name, none, rest) ]
    | some (role, after') ↦ elim (two_line_ends after') [
      | none ↦ none
      | some rest ↦ some (name, some role, rest)
    ]
  ]
]

abbrev starts_with_space : Text → Bool
starts_with_space [] = false
starts_with_space (c ∷ s) = is_space c

abbrev onto_first : ℕ → List Text → List Text
onto_first c [] = (c ∷ []) ∷ []
onto_first c (w ∷ ws) = (c ∷ w) ∷ ws

-- `s.split(/\s+/)`
pub split_spaces : Text → List Text
split_spaces [] = [] ∷ []
split_spaces (c ∷ s) =
    let rest = split_spaces s in
    if is_space c then (if starts_with_space s then rest else [] ∷ rest) else onto_first c rest

module _ (is_letter : ℕ → Bool) where
  abbrev pub starts_token : ℕ → Bool
  starts_token c = is_letter c || c == b'_'

  abbrev pub in_token : ℕ → Bool
  in_token c = starts_token c || c == 39 || c == 0x2019 || c == b'.' || c == b'-'

  -- NAME_TOKEN_RE
  abbrev pub is_name_token : Text → Bool
  is_name_token [] = false
  is_name_token (c ∷ s) = starts_token c && leb (length s) 31 && all in_token s

  pub looks_like_person_name : Text → Bool
  unfolding split_spaces
  looks_like_person_name candidate =
      let tokens = split_spaces (trim candidate) in
      leb (length tokens) 4 && leb 1 (length tokens) && all is_name_token tokens

  abbrev pub trimmed : Option Text → Option Text
  trimmed none = none
  trimmed (some role) = some (trim role)

  -- The name, the role and the rest of the body.
  pub parse_prefixed_body : Text → Option (Text × Option Text × Text)
  unfolding match_prefix looks_like_person_name
  parse_prefixed_body body = elim (match_prefix body) [
    | none ↦ none
    | some (raw, role, rest) ↦
        if looks_like_person_name (trim raw) then some (trim raw, trimmed role, rest) else none
  ]

  pub parse_comment_identity : GhUser → Text → Text → ParsedComment
  unfolding parse_prefixed_body
  parse_comment_identity user body bot_login =
      if is_empty bot_login || not (text_eq user.login bot_login)
      then record { identity = github user; body = body }
      else elim (parse_prefixed_body body) [
        | none ↦ record { identity = bot user; body = body }
        | some (name, role, rest) ↦ record { identity = human name role; body = rest }
      ]

pub prefix_body : Human → Text → Text
prefix_body author markdown =
    codes "**"
    ++ (author.name ++ (codes "** (" ++ (role_text author.role ++ (b')' ∷ 10 ∷ 10 ∷ markdown))))

pub identity_name : CommentIdentity → Text
identity_name (human name role) = name
identity_name (github user) = user.login
identity_name (bot user) = user.login

pub record Comment : Type 0 where
  pub id : ℕ
  pub user : GhUser
  pub body : Text

-- An absent write log names no comment.
pub record OwnCommentContext : Type 0 where
  pub human : Human
  pub comment_authors : ℕ → Option Text
  pub bot_login : Text
  pub viewer_login : Option Text

abbrev pub is_human_named : Text → CommentIdentity → Bool
is_human_named name (human other role) = text_eq other name
is_human_named name (github user) = false
is_human_named name (bot user) = false

-- viewerLogin, where it is there and not empty and the comment is not the bot's
abbrev pub login_signal : Comment → OwnCommentContext → Option Text
login_signal comment ctx = elim ctx.viewer_login [
  | none ↦ none
  | some viewer ↦
      if is_empty viewer || text_eq comment.user.login ctx.bot_login then none else some viewer
]

pub is_own_comment : (ℕ → Bool) → Comment → OwnCommentContext → Bool
unfolding parse_comment_identity
is_own_comment is_letter comment ctx = elim (ctx.comment_authors comment.id) [
  | some author ↦ text_eq author ctx.human.id
  | none ↦ elim (login_signal comment ctx) [
    | some viewer ↦ text_eq comment.user.login viewer
    | none ↦
        is_human_named ctx.human.name
          (parse_comment_identity is_letter comment.user comment.body ctx.bot_login).identity
  ]
]
