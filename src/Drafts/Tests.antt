-- ===== src/Drafts/Tests.antt =====
-- An edit whose first save fails, and a comment that is added; what the theorems say of them.
use revu.Prelude.{arith, text_eq, ◌≡◌, ◌≢◌, ◌≤◌, ◌⊎◌, refl, false, none, some, [], ◌∷◌, Contains}
use revu.Api.{Side, PendingComment, ReviewEvent, ReviewDraft}
use revu.Drafts.{
  Written, Attempt, Persist, schedule_save, save_timer_fires, save_failed, save_answered, Steps,
  here, then_step, edited, save_fired, failed, upsert_comment,
}
use revu.Drafts.Saving.{IsAccounted, start, persist-IsAccounted}
use revu.Drafts.Settling.{
  OwnStep, OwnSteps, still, one_more, call_failed, work_left, IsSettled, persist-IsSettled,
}
use revu.Drafts.{Client, mutate, ensure_draft, with_draft_head, remove_comment}
use revu.ReconcilePlan.{DraftHead}
use revu.Drafts.Edit.{IsDistinct, keys_of, upsert_comment_lem, IsCoherent, edit-IsCoherent}

abbrev draft : ReviewDraft
draft = record {
  human_id = [];
  pr_number = 7;
  head_sha = [];
  compare_key = [];
  body = b'x' ∷ [];
  event = ReviewEvent.comment;
  comments = [];
  created_at = [];
  updated_at = [];
}

abbrev document : Written
document = record { object = 1; draft = draft }

abbrev first_call : Attempt
first_call = record { written = document; is_retry = false }

-- The save timer has fired and the call is in flight.
abbrev in_flight_state : Persist
in_flight_state = record {
  entry = record {
    save_timer = false;
    retry_timer = false;
    pending = some document;
    dirty = false;
  };
  in_flight = first_call ∷ [];
}

abbrev edited_state : Persist
edited_state = schedule_save start document

fired_is : save_timer_fires edited_state ≡ in_flight_state
unfolding save_timer_fires schedule_save
fired_is = refl

fired-Steps : Steps start in_flight_state
unfolding save_timer_fires schedule_save
fired-Steps =
    then_step start edited_state in_flight_state
      (then_step start start edited_state (here start) (edited start document))
      (save_fired edited_state refl)

-- The call fails, and the retry timer is armed.
abbrev failed_state : Persist
failed_state = record { entry = save_failed in_flight_state.entry first_call; in_flight = [] }

abbrev saved_state : Persist
saved_state = record { entry = save_answered in_flight_state.entry first_call; in_flight = [] }

failed-Steps : Steps start failed_state
failed-Steps =
    then_step start in_flight_state failed_state fired-Steps
      (failed in_flight_state.entry [] [] first_call)

-- The call in flight fails, and then the human does nothing.
one_failure : OwnSteps 1 in_flight_state failed_state
one_failure =
    one_more 0 in_flight_state in_flight_state failed_state (still in_flight_state)
      (call_failed in_flight_state.entry [] [] first_call)

persist-IsAccounted_example : IsAccounted failed_state
persist-IsAccounted_example = persist-IsAccounted failed_state failed-Steps

persist-IsSettled_example :
    (1 ≤ work_left in_flight_state)
    × (((u : Persist) × OwnStep failed_state u) ⊎ IsSettled failed_state)
persist-IsSettled_example = persist-IsSettled in_flight_state failed_state 1 fired-Steps one_failure

abbrev comment : PendingComment
comment = record {
  key = b'k' ∷ [];
  path = b'f' ∷ [];
  side = Side.right;
  start_side = none;
  line = 1;
  start_line = none;
  body = [];
  created_at = [];
  updated_at = [];
  anchor = record {
    line_text = [];
    context_before = [];
    context_after = [];
    start_line_text = none;
  };
}

upsert_comment_lem_example :
    IsDistinct (keys_of (upsert_comment comment [] draft).comments)
    × ((x : PendingComment)
        → Contains x draft.comments
        → x.key ≢ comment.key
        → Contains x (upsert_comment comment [] draft).comments)
upsert_comment_lem_example = upsert_comment_lem comment [] draft tt

abbrev client : Client
client = record { cached = some draft; persist = saved_state; next_object = 2 }

abbrev new_head : DraftHead
new_head = record { head_sha = b'n' ∷ []; compare_key = [] }

client-IsCoherent : IsCoherent client
unfolding save_answered
client-IsCoherent w e = absurd (ground (arith, e))

edit-IsCoherent_example :
    IsCoherent (mutate (λ d. with_draft_head d new_head) [] client)
    × IsCoherent (ensure_draft [] 7 new_head [] client).1
    × ((ensure_draft [] 7 new_head [] client).1.cached
        ≡ some (ensure_draft [] 7 new_head [] client).0)
edit-IsCoherent_example =
    edit-IsCoherent (λ d. with_draft_head d new_head) [] [] 7 new_head client client-IsCoherent

-- Moving the head of a draft and removing the only comment.
removed_run : (remove_comment comment.key (upsert_comment comment [] draft)).comments ≡ []
unfolding remove_comment upsert_comment text_eq
removed_run = refl

moved_run : (with_draft_head draft new_head).head_sha ≡ new_head.head_sha
unfolding with_draft_head
moved_run = refl
