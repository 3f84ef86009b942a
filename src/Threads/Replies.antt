-- ===== src/Threads/Replies.antt =====
-- A reply that is answered, against the reply of the server written down at once.
use revu.Prelude.{ℕ, ◌≡◌, refl, true, false, Option, some, All, Text, arith}
use revu.Threads.{
  CommentId, server, synthetic, same_id, ReviewComment, ReviewThread, Snapshot, Session, ReviewMode,
  with_thread, with_comment_author, append_comment, synthetic_reply, landed, Cache, ReplyContext,
  reply_on_mutate,
}

same_id_refl : (id : CommentId) → same_id id id ≡ true
same_id_refl (server n) = ground arith
same_id_refl (synthetic n) = ground arith

-- The optimistic id stands on no comment of the thread.
abbrev pub IsFresh : CommentId → ReviewThread → Type 0
IsFresh id t = All (λ c. same_id c.id id ≡ false) t.comments

module _ (at : Text) (session : Session) (mode : ReviewMode) (seq : ℕ) (snap : Snapshot)
    (thread_id body : Text) where
  abbrev mutated : Cache × ReplyContext × ℕ
  mutated = reply_on_mutate at session mode seq (some (some snap)) thread_id body

  abbrev optimistic : ReviewThread → Snapshot
  optimistic thread =
      with_comment_author
        (with_thread snap thread_id
          (append_comment (synthetic_reply at thread session mode body (synthetic seq))))
        (synthetic seq) session.human.id

  optimistic-authors :
      (thread : ReviewThread)
      → (optimistic thread).comment_authors (synthetic seq) ≡ some session.human.id
  optimistic-authors thread = rw (same_id_refl (synthetic seq)) refl

  abbrev author_after : ReviewThread → ReviewComment → CommentId → Option Text
  author_after thread comment =
      (landed session (optimistic thread) comment thread_id (synthetic seq)).comment_authors
