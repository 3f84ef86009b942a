-- ===== src/Identity/Tests.antt =====
-- A comment of a contractor, posted by the bot.
use revu.Prelude.{
  ℕ, ◌≡◌, refl, Bool, true, false, ◌&&◌, ◌||◌, none, some, Text, codes, text_eq, trim_end, is_space,
  leb, if◌then◌else◌,
}
use revu.Identity.{
  Human, contractor, lead, role_text, Comment, OwnCommentContext, split_spaces,
  looks_like_person_name, parse_prefixed_body, prefix_body, is_own_comment,
}
use revu.Identity.RoundTrip.{parse_prefixed_body-prefix_body}
use revu.Identity.Own.{is_own_comment-prefix_body}

abbrev is_ascii_letter : ℕ → Bool
is_ascii_letter c =
    (leb b'a' c && leb c b'z') || (leb b'A' c && leb c b'Z') || (leb b'0' c && leb c b'9')

abbrev alice : Human
alice = record { id = codes "alice@example.com"; name = codes "Alice Ng"; role = contractor }

abbrev bob : Human
bob = record { id = codes "bob@example.com"; name = codes "Bob"; role = lead }

abbrev markdown : Text
markdown = codes "**no** change needed"

looks_like_alice : looks_like_person_name is_ascii_letter alice.name ≡ true
unfolding looks_like_person_name split_spaces trim_end is_space
looks_like_alice = refl

opener_is_no_name : looks_like_person_name is_ascii_letter (codes "Warning: read") ≡ false
unfolding looks_like_person_name split_spaces trim_end is_space
opener_is_no_name = refl

parse_prefixed_body-prefix_body_example :
    parse_prefixed_body is_ascii_letter (prefix_body alice markdown) ≡ (
      if looks_like_person_name is_ascii_letter alice.name
      then some (alice.name, some (role_text alice.role), markdown)
      else none)
unfolding trim_end is_space
parse_prefixed_body-prefix_body_example =
    parse_prefixed_body-prefix_body is_ascii_letter alice markdown refl refl refl

abbrev by_bot : Comment
by_bot = record {
  id = 12;
  user = record { login = codes "revu-bot" };
  body = prefix_body alice markdown;
}

-- The session of another human, with the bot's login for itself and no entry in the write log.
abbrev of_bob : OwnCommentContext
of_bob = record {
  human = bob;
  comment_authors = λ id. none;
  bot_login = codes "revu-bot";
  viewer_login = some (codes "revu-bot");
}

is_own_comment-prefix_body_example :
    ((logged : Text)
      → of_bob.comment_authors by_bot.id ≡ some logged
      → is_own_comment is_ascii_letter by_bot of_bob ≡ text_eq logged of_bob.human.id)
    × (of_bob.comment_authors by_bot.id ≡ none
        → is_own_comment is_ascii_letter by_bot of_bob ≡ text_eq alice.name of_bob.human.name)
unfolding trim_end is_space
is_own_comment-prefix_body_example =
    is_own_comment-prefix_body is_ascii_letter by_bot of_bob alice markdown refl refl refl refl refl
      refl looks_like_alice
