-- ===== src/Identity/Own.antt =====
-- Which comments are the session human's own.
use revu.Prelude.{
  ℕ, ◌≡◌, refl, ap, ◌∙◌, Bool, true, false, Bool-cases, inl, inr, Option-cases, Option, none, some,
  all, if◌then◌else◌, Text, text_eq, text_eq_iff, is_empty,
}
use revu.Identity.{
  GhUser, Human, role_text, human, ParsedComment, Comment, OwnCommentContext, trim, within, in_name,
  looks_like_person_name, parse_prefixed_body, parse_comment_identity, prefix_body, login_signal,
  is_human_named, is_own_comment,
}
use revu.Identity.RoundTrip.{parse_prefixed_body-prefix_body}

parse_comment_identity-bot :
    (is_letter : ℕ → Bool) (user : GhUser) (body bot_login name : Text) (role : Option Text)
    (rest : Text)
    → is_empty bot_login ≡ false
    → user.login ≡ bot_login
    → parse_prefixed_body is_letter body ≡ some (name, role, rest)
    → parse_comment_identity is_letter user body bot_login
      ≡ record { identity = human name role; body = rest }
unfolding parse_comment_identity
parse_comment_identity-bot is_letter user body bot_login name role rest real same parsed =
    let own = (text_eq_iff user.login bot_login).1 same in
    rw (parse_comment_identity, real, own, parsed) refl

login_signal-bot :
    (comment : Comment) (ctx : OwnCommentContext)
    → comment.user.login ≡ ctx.bot_login
    → login_signal comment ctx ≡ none
login_signal-bot comment ctx same =
    let own : text_eq comment.user.login ctx.bot_login ≡ true =
      (text_eq_iff comment.user.login ctx.bot_login).1 same in
    elim (Option-cases ctx.viewer_login) [
      | inl e ↦ rw (login_signal, e) refl
      | inr (viewer, e) ↦ elim (Bool-cases (is_empty viewer)) [
        | inl f ↦ rw (login_signal, e, f) refl
        | inr f ↦ rw (login_signal, e, f, own) refl
      ]
    ]

is_own_comment-unlogged :
    (is_letter : ℕ → Bool) (comment : Comment) (ctx : OwnCommentContext)
    → ctx.comment_authors comment.id ≡ none
    → login_signal comment ctx ≡ none
    → is_own_comment is_letter comment ctx
      ≡ is_human_named ctx.human.name
          (parse_comment_identity is_letter comment.user comment.body ctx.bot_login).identity
unfolding is_own_comment
is_own_comment-unlogged is_letter comment ctx silent signal =
    rw (is_own_comment, silent, signal) refl

is_own_comment-logged :
    (is_letter : ℕ → Bool) (comment : Comment) (ctx : OwnCommentContext) (author : Text)
    → ctx.comment_authors comment.id ≡ some author
    → is_own_comment is_letter comment ctx ≡ text_eq author ctx.human.id
unfolding is_own_comment
is_own_comment-logged is_letter comment ctx author named = rw (is_own_comment, named) refl

-- A comment that the bot wrote under its login with the prefix of a human whose name the broker
-- accepts: where the write log names an author, it is the session human's own exactly when that
-- is the human's id; where the log is silent, exactly when the names are the same, whatever login
-- the session has for itself.
pub is_own_comment-prefix_body :
    (is_letter : ℕ → Bool) (comment : Comment) (ctx : OwnCommentContext) (author : Human)
    (markdown : Text)
    → is_empty ctx.bot_login ≡ false
    → comment.user.login ≡ ctx.bot_login
    → comment.body ≡ prefix_body author markdown
    → all in_name author.name ≡ true
    → within 140 author.name ≡ true
    → trim author.name ≡ author.name
    → looks_like_person_name is_letter author.name ≡ true
    → ((logged : Text)
        → ctx.comment_authors comment.id ≡ some logged
        → is_own_comment is_letter comment ctx ≡ text_eq logged ctx.human.id)
      × (ctx.comment_authors comment.id ≡ none
          → is_own_comment is_letter comment ctx ≡ text_eq author.name ctx.human.name)
is_own_comment-prefix_body is_letter comment ctx author markdown real same body run size bare
      looks =
    let round =
      parse_prefixed_body-prefix_body is_letter author markdown run size bare
      ∙ ap (λ b. if b then some (author.name, some (role_text author.role), markdown) else none)
          looks in
    (
      λ logged. is_own_comment-logged is_letter comment ctx logged,
      λ silent.
          is_own_comment-unlogged is_letter comment ctx silent (login_signal-bot comment ctx same)
          ∙ ap (λ (parsed : ParsedComment). is_human_named ctx.human.name parsed.identity)
              (parse_comment_identity-bot is_letter comment.user comment.body ctx.bot_login
                author.name (some (role_text author.role)) markdown real same
                (ap (parse_prefixed_body is_letter) body ∙ round)),
    )
