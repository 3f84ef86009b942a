-- ===== src/Threads.antt =====
-- The optimistic writes of threads against the cached snapshot
-- (packages/app/src/state/threads.ts): replies, resolutions and reactions, each with what is done
-- before the call (onMutate), when it fails (onError) and when it is answered (onSuccess). What is
-- only refetched (invalidateQueries) is not modelled. Of a user only the login, and of
-- threads and comments a part of the fields, are modelled; `at` is the time.
pub mod Replies
mod Tests
use revu.Prelude.{
  ℕ, suc, ◌+◌, Bool, true, false, not, ◌&&◌, ◌||◌, Option, none, some, List, [], ◌∷◌, ◌++◌, map,
  any, find, if◌then◌else◌, Text, text_eq, is_empty, ◌==◌,
}
use revu.Identity.{GhUser, Human, prefix_body}

-- The id of a comment: a number of the server, or the negative number -(n + 1) of an optimistic one.
pub data CommentId : Type 0 where
  server synthetic : ℕ → CommentId

abbrev pub same_id : CommentId → CommentId → Bool
same_id (server m) (server n) = m == n
same_id (synthetic m) (synthetic n) = m == n
same_id (server m) (synthetic n) = false
same_id (synthetic m) (server n) = false

pub data ReactionKey : Type 0 where
  plus_one minus_one laugh hooray confused heart rocket eyes : ReactionKey

abbrev pub same_key : ReactionKey → ReactionKey → Bool
same_key plus_one plus_one = true
same_key minus_one minus_one = true
same_key laugh laugh = true
same_key hooray hooray = true
same_key confused confused = true
same_key heart heart = true
same_key rocket rocket = true
same_key eyes eyes = true
same_key _ _ = false

pub record ReactionRollup : Type 0 where
  pub total_count : ℕ
  pub count : ReactionKey → ℕ

pub record ReviewComment : Type 0 where
  pub id : CommentId
  pub in_reply_to_id : Option CommentId
  pub path : Text
  pub line : Option ℕ
  pub diff_hunk : Text
  pub commit_id : Text
  pub user : GhUser
  pub body : Text
  pub created_at : Text
  pub reactions : ReactionRollup

pub record ReviewThread : Type 0 where
  pub id : Text
  pub path : Text
  pub line : Option ℕ
  pub is_resolved : Bool
  pub is_outdated : Bool
  pub resolved_by : Option GhUser
  pub comments : List ReviewComment

pub record IssueComment : Type 0 where
  pub id : CommentId
  pub body : Text
  pub reactions : ReactionRollup

-- `comment_authors` is the write log; an absent one names no comment.
pub record Snapshot : Type 0 where
  pub threads : List ReviewThread
  pub issue_comments : List IssueComment
  pub comment_authors : CommentId → Option Text

abbrev pub with_thread : Snapshot → Text → (ReviewThread → ReviewThread) → Snapshot
with_thread snap thread_id update = record snap {
  threads = map (λ t. if text_eq t.id thread_id then update t else t) snap.threads;
}

abbrev pub with_comment_author : Snapshot → CommentId → Text → Snapshot
with_comment_author snap id human_id = record snap {
  comment_authors = λ c. if same_id c id then some human_id else snap.comment_authors c;
}

abbrev pub drop_comment_author : Snapshot → CommentId → Snapshot
drop_comment_author snap id = record snap {
  comment_authors = λ c. if same_id c id then none else snap.comment_authors c;
}

abbrev pub with_comment_rollup : Snapshot → CommentId → ReactionRollup → Snapshot
with_comment_rollup snap id rollup = record snap {
  threads =
      map
        (λ t.
          if any (λ c. same_id c.id id) t.comments
          then record t {
            comments =
                map (λ c. if same_id c.id id then record c { reactions = rollup } else c)
                  t.comments;
          }
          else t)
        snap.threads;
  issue_comments =
      map (λ c. if same_id c.id id then record c { reactions = rollup } else c) snap.issue_comments;
}

abbrev rollup_of : Option ReviewComment → Option ReactionRollup
rollup_of none = none
rollup_of (some c) = some c.reactions

abbrev issue_rollup : Option IssueComment → Option ReactionRollup
issue_rollup none = none
issue_rollup (some c) = some c.reactions

abbrev thread_rollup : List ReviewThread → CommentId → Option ReactionRollup
thread_rollup [] id = none
thread_rollup (t ∷ ts) id = elim (rollup_of (find (λ c. same_id c.id id) t.comments)) [
  | some rollup ↦ some rollup
  | none ↦ thread_rollup ts id
]

pub find_rollup : Snapshot → CommentId → Option ReactionRollup
find_rollup snap id = elim (thread_rollup snap.threads id) [
  | some rollup ↦ some rollup
  | none ↦ issue_rollup (find (λ c. same_id c.id id) snap.issue_comments)
]

abbrev pub bump_rollup : ReactionRollup → ReactionKey → ReactionRollup
bump_rollup rollup key = record {
  total_count = rollup.total_count + 1;
  count = λ k. if same_key k key then rollup.count key + 1 else rollup.count k;
}

abbrev pub empty_rollup : ReactionRollup
empty_rollup = record { total_count = 0; count = λ k. 0 }

pub record Session : Type 0 where
  pub human : Human
  pub broker_login : Text
  pub viewer_login : Option Text

pub data ReviewMode : Type 0 where
  local_review pull_review : ReviewMode

abbrev pub stamps_writes : Session → Bool
stamps_writes session = not (is_empty session.broker_login)

abbrev own_login : Session → Option Text
own_login session = elim session.viewer_login [
  | none ↦ none
  | some login ↦ if is_empty login then none else some login
]

pub optimistic_body : Session → ReviewMode → Text → Text
optimistic_body session local_review body = body
optimistic_body session pull_review body =
    if stamps_writes session then prefix_body session.human body else body

abbrev resolver_login : Session → Text
resolver_login session = elim (own_login session) [
  | some login ↦ login
  | none ↦ if stamps_writes session then session.broker_login else session.human.name
]

pub optimistic_resolved_by : Session → ReviewMode → GhUser
optimistic_resolved_by session local_review = record { login = session.human.name }
optimistic_resolved_by session pull_review = record { login = resolver_login session }

abbrev author_login : Session → Text
author_login session =
    if stamps_writes session
    then session.broker_login
    else elim (own_login session) [ some login ↦ login | none ↦ session.human.name ]

pub optimistic_author : Session → ReviewMode → GhUser
optimistic_author session local_review = record { login = session.human.name }
optimistic_author session pull_review = record { login = author_login session }

abbrev first_id : List ReviewComment → Option CommentId
first_id [] = none
first_id (c ∷ cs) = some c.id

abbrev first_hunk : List ReviewComment → Text
first_hunk [] = []
first_hunk (c ∷ cs) = c.diff_hunk

abbrev first_commit : List ReviewComment → Text
first_commit [] = []
first_commit (c ∷ cs) = c.commit_id

pub synthetic_reply : Text → ReviewThread → Session → ReviewMode → Text → CommentId → ReviewComment
unfolding optimistic_body optimistic_author
synthetic_reply at thread session mode body id = record {
  id = id;
  in_reply_to_id = first_id thread.comments;
  path = thread.path;
  line = thread.line;
  diff_hunk = first_hunk thread.comments;
  commit_id = first_commit thread.comments;
  user = optimistic_author session mode;
  body = optimistic_body session mode body;
  created_at = at;
  reactions = empty_rollup;
}

abbrev pub append_comment : ReviewComment → ReviewThread → ReviewThread
append_comment comment t = record t { comments = t.comments ++ (comment ∷ []) }

-- What the query cache holds: nothing yet, null, or a snapshot.
abbrev pub Cache : Type 0
Cache = Option (Option Snapshot)

-- A change of the snapshot that is there.
abbrev pub over : (Snapshot → Snapshot) → Cache → Cache
over f none = none
over f (some none) = some none
over f (some (some snap)) = some (some (f snap))

-- What onMutate of a reply hands to the other two.
pub record ReplyContext : Type 0 where
  pub previous_snapshot : Cache
  pub synthetic_id : CommentId
  pub restored_text : Text

abbrev pub replied : Text → Session → ReviewMode → Snapshot → Text → Text → CommentId → Snapshot
replied at session mode snap thread_id body id =
    elim (find (λ t. text_eq t.id thread_id) snap.threads) [
      | none ↦ snap
      | some thread ↦
          with_comment_author
            (with_thread snap thread_id
              (append_comment (synthetic_reply at thread session mode body id)))
            id session.human.id
    ]

-- `seq` counts the optimistic ids that were taken.
pub reply_on_mutate :
    Text → Session → ReviewMode → ℕ → Cache → Text → Text → Cache × ReplyContext × ℕ
unfolding synthetic_reply
reply_on_mutate at session mode seq cache thread_id body = (
  over (λ snap. replied at session mode snap thread_id body (synthetic seq)) cache,
  record { previous_snapshot = cache; synthetic_id = synthetic seq; restored_text = body },
  suc seq,
)

-- The onError of all three: a copy that was taken while nothing was cached is not put back.
abbrev pub roll_back : Cache → Cache → Cache
roll_back none cache = cache
roll_back (some previous) cache = some previous

abbrev pub reply_on_error : ReplyContext → Cache → Cache
reply_on_error context = roll_back context.previous_snapshot

abbrev pub swap_comment : CommentId → ReviewComment → ReviewThread → ReviewThread
swap_comment id comment t = record t {
  comments =
      if any (λ c. same_id c.id id) t.comments
      then map (λ c. if same_id c.id id then comment else c) t.comments
      else t.comments ++ (comment ∷ []);
}

abbrev author_or : Option Text → Text → Text
author_or none human_id = human_id
author_or (some author) human_id = author

abbrev pub landed : Session → Snapshot → ReviewComment → Text → CommentId → Snapshot
landed session snap comment thread_id id =
    let swapped = with_thread snap thread_id (swap_comment id comment) in
    drop_comment_author
      (with_comment_author swapped comment.id
        (author_or (swapped.comment_authors id) session.human.id))
      id

pub reply_on_success : Session → ReviewComment → Text → ReplyContext → Cache → Cache
reply_on_success session comment thread_id context =
    over (λ snap. landed session snap comment thread_id context.synthetic_id)

pub resolve_on_mutate : Session → ReviewMode → Cache → Text → Bool → Cache
unfolding optimistic_resolved_by
resolve_on_mutate session mode cache thread_id resolved =
    over
      (λ snap. with_thread snap thread_id (λ t. record t {
        is_resolved = resolved;
        resolved_by = if resolved then some (optimistic_resolved_by session mode) else none;
      }))
      cache

pub resolve_on_success : ReviewThread → Text → Cache → Cache
resolve_on_success server_thread thread_id = over (λ snap. with_thread snap thread_id (λ t.
    record t {
      is_resolved = server_thread.is_resolved;
      is_outdated = server_thread.is_outdated;
      resolved_by = server_thread.resolved_by;
    }))

abbrev reacted : Snapshot → CommentId → ReactionKey → Snapshot
reacted snap id key = elim (find_rollup snap id) [
  | none ↦ snap
  | some rollup ↦ with_comment_rollup snap id (bump_rollup rollup key)
]

pub reaction_on_mutate : Cache → CommentId → ReactionKey → Cache
unfolding find_rollup
reaction_on_mutate cache id key = over (λ snap. reacted snap id key) cache

pub reaction_on_success : ReactionRollup → CommentId → Cache → Cache
reaction_on_success server_rollup id = over (λ snap. with_comment_rollup snap id server_rollup)
