-- ===== src/Drafts.antt =====
-- drafts.ts (packages/app/src/state): how the edits of a draft are saved. The state is that of one
-- pull request: its entry, where one that does not exist yet is the empty one that `entryFor`
-- makes, and the calls of `saveDraft` that have not been answered. A timer is true while it is
-- armed. A draft carries the identity of its object, which `===` compares.
pub mod Saving
pub mod Settling
pub mod Edit
mod Tests
use revu.Prelude.{
  ◌≡◌, ℕ, ◌==◌, ◌+◌, ◌||◌, if◌then◌else◌, Bool, true, false, not, Option, none, some, List, [], ◌∷◌,
  ◌++◌, map, filter, find, Text, text_eq,
}
use revu.Api.{ReviewDraft, PendingComment, ReviewEvent}
use revu.ReconcilePlan.{DraftHead}

pub record Written : Type 0 where
  pub object : ℕ
  pub draft : ReviewDraft

pub record PersistEntry : Type 0 where
  pub save_timer : Bool
  pub retry_timer : Bool
  pub pending : Option Written
  pub dirty : Bool

pub record Attempt : Type 0 where
  pub written : Written
  pub is_retry : Bool

pub record Persist : Type 0 where
  pub entry : PersistEntry
  pub in_flight : List Attempt

abbrev pub no_entry : PersistEntry
no_entry = record { save_timer = false; retry_timer = false; pending = none; dirty = false }

abbrev pub clear_timers : PersistEntry → PersistEntry
clear_timers e = record e { save_timer = false; retry_timer = false }

-- `entry.pending === draft`
abbrev pub is_pending : Written → Option Written → Bool
is_pending d none = false
is_pending d (some p) = p.object == d.object

-- The part of attemptSave before the answer.
abbrev pub attempt_of : Option Written → Bool → List Attempt
attempt_of none is_retry = []
attempt_of (some d) is_retry = record { written = d; is_retry = is_retry } ∷ []

pub attempt_save : Persist → Bool → Persist
attempt_save s is_retry = record s {
  in_flight = s.in_flight ++ attempt_of s.entry.pending is_retry;
}

-- The part after saveDraft has been answered, and after it has failed.
pub save_answered : PersistEntry → Attempt → PersistEntry
save_answered e a =
    if is_pending a.written e.pending then record e { pending = none; dirty = false } else e

pub save_failed : PersistEntry → Attempt → PersistEntry
save_failed e a =
    if not (is_pending a.written e.pending)
    then e
    else if not a.is_retry
    then record e { retry_timer = true }
    else record e { dirty = true }

pub schedule_save : Persist → Written → Persist
schedule_save s d = record s {
  entry = record (clear_timers (record s.entry { pending = some d })) { save_timer = true };
}

pub flush_save : Persist → Persist
unfolding attempt_save
flush_save s = elim s.entry.pending [
  | none ↦ s
  | some d ↦ attempt_save (record s { entry = clear_timers s.entry }) false
]

pub drop_persist_state : Persist → Persist
drop_persist_state s = record s {
  entry = record (clear_timers s.entry) { pending = none; dirty = false };
}

-- What the callbacks of the two timers do.
pub save_timer_fires : Persist → Persist
unfolding attempt_save
save_timer_fires s = attempt_save (record s { entry = record s.entry { save_timer = false } }) false

pub retry_timer_fires : Persist → Persist
unfolding attempt_save
retry_timer_fires s =
    attempt_save (record s { entry = record s.entry { retry_timer = false } }) true

-- One thing that happens to a pull request's state: an edit, a flush, a drop, a timer, or the answer
-- to one of the calls in flight.
pub data Step : Persist → Persist → Type 0 where
  edited : (s : Persist) (d : Written) → Step s (schedule_save s d)
  flushed : (s : Persist) → Step s (flush_save s)
  dropped : (s : Persist) → Step s (drop_persist_state s)
  save_fired : (s : Persist) → s.entry.save_timer ≡ true → Step s (save_timer_fires s)
  retry_fired : (s : Persist) → s.entry.retry_timer ≡ true → Step s (retry_timer_fires s)
  answered :
      (e : PersistEntry) (before after : List Attempt) (a : Attempt)
      → Step
          record { entry = e; in_flight = before ++ (a ∷ after) }
          record { entry = save_answered e a; in_flight = before ++ after }
  failed :
      (e : PersistEntry) (before after : List Attempt) (a : Attempt)
      → Step
          record { entry = e; in_flight = before ++ (a ∷ after) }
          record { entry = save_failed e a; in_flight = before ++ after }

pub data Steps : Persist → Persist → Type 0 where
  here : (s : Persist) → Steps s s
  then_step : (s t u : Persist) → Steps s t → Step t u → Steps s u

pub with_draft_head : ReviewDraft → DraftHead → ReviewDraft
with_draft_head d head = record d { head_sha = head.head_sha; compare_key = head.compare_key }

-- The edits of a draft. `now` is the time that is stamped.
pub upsert_comment : PendingComment → Text → ReviewDraft → ReviewDraft
upsert_comment c now d = record d {
  comments = elim (find (λ x. text_eq x.key c.key) d.comments) [
    | some existing ↦
        map
          (λ x.
            if text_eq x.key c.key
            then record c { created_at = existing.created_at; updated_at = now }
            else x)
          d.comments
    | none ↦ d.comments ++ (c ∷ [])
  ];
}

pub remove_comment : Text → ReviewDraft → ReviewDraft
remove_comment key d = record d { comments = filter (λ x. not (text_eq x.key key)) d.comments }

abbrev pub set_body : Text → ReviewDraft → ReviewDraft
set_body body d = record d { body = body }

abbrev pub set_event : ReviewEvent → ReviewDraft → ReviewDraft
set_event event d = record d { event = event }

-- The cache of a pull request's draft, and the identity that its next document will have.
pub record Client : Type 0 where
  pub cached : Option ReviewDraft
  pub persist : Persist
  pub next_object : ℕ

-- write(next)
abbrev pub write : ReviewDraft → Client → Client
write next c = record {
  cached = some next;
  persist = schedule_save c.persist record { object = c.next_object; draft = next };
  next_object = c.next_object + 1;
}

pub mutate : (ReviewDraft → ReviewDraft) → Text → Client → Client
unfolding schedule_save
mutate fn now c = elim c.cached [
  | none ↦ c
  | some current ↦ write (record (fn current) { updated_at = now }) c
]

-- The draft that is there, or an empty one that is cached and not saved.
pub ensure_draft : Text → ℕ → DraftHead → Text → Client → ReviewDraft × Client
ensure_draft human_id pr_number head now c = elim c.cached [
  | some existing ↦ (existing, c)
  | none ↦
      let draft : ReviewDraft = record {
        human_id = human_id;
        pr_number = pr_number;
        head_sha = head.head_sha;
        compare_key = head.compare_key;
        body = [];
        event = ReviewEvent.comment;
        comments = [];
        created_at = now;
        updated_at = now;
      } in
      (draft, record c { cached = some draft; next_object = c.next_object + 1 })
]
