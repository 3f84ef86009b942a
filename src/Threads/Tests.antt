-- ===== src/Threads/Tests.antt =====
-- A reply to a thread of one comment, alone and overlapping another.
use revu.Prelude.{ℕ, ◌≡◌, refl, false, none, some, [], ◌∷◌, Text, codes}
use revu.Identity.{contractor}
use revu.Threads.{
  server, ReviewComment, ReviewThread, Snapshot, Session, pull_review, empty_rollup, Cache,
  reply_on_mutate, reply_on_success, reply_on_error,
}

abbrev comment_of : ℕ → Text → ReviewComment
comment_of n body = record {
  id = server n;
  in_reply_to_id = none;
  path = codes "a.ts";
  line = some 3;
  diff_hunk = [];
  commit_id = [];
  user = record { login = codes "revu-bot" };
  body = body;
  created_at = [];
  reactions = empty_rollup;
}

abbrev thread : ReviewThread
thread = record {
  id = codes "t";
  path = codes "a.ts";
  line = some 3;
  is_resolved = false;
  is_outdated = false;
  resolved_by = none;
  comments = comment_of 1 (codes "why?") ∷ [];
}

abbrev snap : Snapshot
snap = record { threads = thread ∷ []; issue_comments = []; comment_authors = λ c. none }

abbrev session : Session
session = record {
  human = record { id = codes "alice@example.com"; name = codes "Alice"; role = contractor };
  broker_login = codes "revu-bot";
  viewer_login = none;
}

abbrev alone : Cache
alone =
    (reply_on_mutate [] session pull_review 0 (some (some snap)) (codes "t") (codes "because")).0

-- Two replies overlap: the second is answered, then the first fails, and the cache is what it was
-- before both.
overlapping_reply_is_lost :
    let first =
      reply_on_mutate [] session pull_review 0 (some (some snap)) (codes "t") (codes "a") in
    let second = reply_on_mutate [] session pull_review 1 first.0 (codes "t") (codes "b") in
    reply_on_error first.1
      (reply_on_success session (comment_of 2 (codes "b")) (codes "t") second.1 second.0)
    ≡ some (some snap)
unfolding reply_on_mutate
overlapping_reply_is_lost = refl
