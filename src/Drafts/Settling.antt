-- ===== src/Drafts/Settling.antt =====
-- drafts.ts: what happens when the human does nothing more. Then only timers fire and calls of
-- saveDraft are answered or fail.
use revu.Prelude.{
  ℕ, suc, ◌+◌, ◌≤◌, ◌<◌, ◌≡◌, refl, arith, Bool, true, false, Bool-cases, inl, inr, ◌⊎◌, Option,
  none, some, List, [], ◌∷◌, ◌++◌, if◌then◌else◌,
}
use revu.Drafts.{
  Written, PersistEntry, Attempt, Persist, is_pending, attempt_of, attempt_save, save_answered,
  save_failed, save_timer_fires, retry_timer_fires, Step, save_fired, retry_fired, answered, failed,
  Steps, then_step,
}
use revu.Drafts.Saving.{IsOnItsWay, IsAccounted, start, persist-IsAccounted}

pub data OwnStep : Persist → Persist → Type 0 where
  save_timer_fired : (s : Persist) → s.entry.save_timer ≡ true → OwnStep s (save_timer_fires s)
  retry_timer_fired : (s : Persist) → s.entry.retry_timer ≡ true → OwnStep s (retry_timer_fires s)
  call_answered :
      (e : PersistEntry) (before after : List Attempt) (a : Attempt)
      → OwnStep
          record { entry = e; in_flight = before ++ (a ∷ after) }
          record { entry = save_answered e a; in_flight = before ++ after }
  call_failed :
      (e : PersistEntry) (before after : List Attempt) (a : Attempt)
      → OwnStep
          record { entry = e; in_flight = before ++ (a ∷ after) }
          record { entry = save_failed e a; in_flight = before ++ after }

-- n such steps.
pub data OwnSteps : ℕ → Persist → Persist → Type 0 where
  still : (s : Persist) → OwnSteps 0 s s
  one_more : (n : ℕ) (s t u : Persist) → OwnSteps n s t → OwnStep t u → OwnSteps (suc n) s u

OwnStep-Step : (s t : Persist) → OwnStep s t → Step s t
OwnStep-Step s t (save_timer_fired s' h) = save_fired s' h
OwnStep-Step s t (retry_timer_fired s' h) = retry_fired s' h
OwnStep-Step s t (call_answered e before after a) = answered e before after a
OwnStep-Step s t (call_failed e before after a) = failed e before after a

OwnSteps-Steps : (n : ℕ) (r s t : Persist) → Steps r s → OwnSteps n s t → Steps r t
OwnSteps-Steps n r s t steps (still s') = steps
OwnSteps-Steps n r s u steps (one_more m s' t u' own step) =
    then_step r t u (OwnSteps-Steps m r s t steps own) (OwnStep-Step t u step)

-- How many steps a call may still lead to: a first call may arm the retry timer.
abbrev pub call_work : List Attempt → ℕ
call_work [] = 0
call_work (a ∷ calls) = let rest = call_work calls in (if a.is_retry then 1 else 3) + rest

abbrev pub timer_work : PersistEntry → ℕ
timer_work e = (if e.save_timer then 4 else 0) + (if e.retry_timer then 2 else 0)

-- At most four steps for the save timer, two for the retry timer, three for a first call in flight
-- and one for a retry.
abbrev pub work_left : Persist → ℕ
work_left s = timer_work s.entry + call_work s.in_flight

call_work-append : (xs ys : List Attempt) → call_work (xs ++ ys) ≡ call_work xs + call_work ys
call_work-append [] ys = omega arith
call_work-append (x ∷ xs) ys = omega (arith, call_work-append xs ys)

attempt_work :
    (p : Option Written) (is_retry : Bool)
    → call_work (attempt_of p is_retry) ≤ (if is_retry then 1 else 3)
attempt_work none is_retry = ground arith
attempt_work (some d) is_retry = ground arith

timer_work-save_answered :
    (e : PersistEntry) (a : Attempt) → timer_work (save_answered e a) ≡ timer_work e
unfolding save_answered
timer_work-save_answered e a = elim (Bool-cases (is_pending a.written e.pending)) [
  | inl k ↦ rw (k, save_answered) refl
  | inr k ↦ rw (k, save_answered) refl
]

armed : (b : Bool) → 2 ≤ (if b then 2 else 0) + 2
armed b = ground arith

timer_work-save_failed :
    (e : PersistEntry) (a : Attempt)
    → timer_work (save_failed e a) ≤ timer_work e + (if a.is_retry then 0 else 2)
unfolding save_failed
timer_work-save_failed e a = elim (Bool-cases (is_pending a.written e.pending)) [
  | inl k ↦ elim (Bool-cases a.is_retry) [
    | inl again ↦ rw (k, again, save_failed) (omega arith)
    | inr first ↦ rw (k, first, save_failed) (omega (arith, armed e.retry_timer))
  ]
  | inr k ↦ rw (k, save_failed) (omega arith)
]

call_work_pos :
    (b : Bool) → (0 < (if b then 1 else 3)) × ((if b then 0 else 2) < (if b then 1 else 3))
call_work_pos b = ground arith

OwnStep-work_left : (s t : Persist) → OwnStep s t → work_left t < work_left s
unfolding save_timer_fires retry_timer_fires attempt_save
OwnStep-work_left s t (save_timer_fired s' h) = rw h (
    omega (
      arith,
      call_work-append s.in_flight (attempt_of s.entry.pending false),
      attempt_work s.entry.pending false,
    ))
OwnStep-work_left s t (retry_timer_fired s' h) = rw h (
    omega (
      arith,
      call_work-append s.in_flight (attempt_of s.entry.pending true),
      attempt_work s.entry.pending true,
    ))
OwnStep-work_left s t (call_answered e before after a) = omega (
  arith,
  call_work-append before (a ∷ after),
  call_work-append before after,
  timer_work-save_answered e a,
  call_work_pos a.is_retry,
)
OwnStep-work_left s t (call_failed e before after a) = omega (
  arith,
  call_work-append before (a ∷ after),
  call_work-append before after,
  timer_work-save_failed e a,
  call_work_pos a.is_retry,
)

OwnSteps-work_left : (n : ℕ) (s t : Persist) → OwnSteps n s t → n + work_left t ≤ work_left s
OwnSteps-work_left n s t (still s') = omega arith
OwnSteps-work_left n s u (one_more m s' t u' own step) =
    omega (arith, OwnSteps-work_left m s t own, OwnStep-work_left t u step)

-- Nothing is armed and nothing is in flight.
abbrev IsQuiet : Persist → Type 0
IsQuiet s = (s.entry.save_timer ≡ false) × (s.entry.retry_timer ≡ false) × (s.in_flight ≡ [])

goes_on : (s : Persist) → ((t : Persist) × OwnStep s t) ⊎ IsQuiet s
goes_on s = elim (Bool-cases s.entry.save_timer) [
  | inl save ↦ inl (save_timer_fires s, save_timer_fired s save)
  | inr no_save ↦ elim (Bool-cases s.entry.retry_timer) [
    | inl retry ↦ inl (retry_timer_fires s, retry_timer_fired s retry)
    | inr no_retry ↦ with_calls s.in_flight s.entry no_save no_retry
  ]
]
  where
    with_calls :
        (calls : List Attempt) (e : PersistEntry)
        → e.save_timer ≡ false
        → e.retry_timer ≡ false
        → ((t : Persist) × OwnStep record { entry = e; in_flight = calls } t)
          ⊎ IsQuiet record { entry = e; in_flight = calls }
    with_calls [] e save retry = inr (save, retry, refl)
    with_calls (a ∷ calls) e save retry =
        inl (record { entry = save_answered e a; in_flight = calls }, call_answered e [] calls a)

-- The draft is saved, or the bar shows that it is not.
abbrev pub IsSettled : Persist → Type 0
IsSettled s = (s.entry.pending ≡ none) ⊎ (s.entry.dirty ≡ true)

quiet-IsSettled : (s : Persist) → IsAccounted s → IsQuiet s → IsSettled s
quiet-IsSettled s h (save, retry, calm) = pending_lem s.entry.pending s.in_flight calm h
  where
    pending_lem :
        (p : Option Written) (calls : List Attempt)
        → calls ≡ []
        → IsOnItsWay p s.entry calls
        → (p ≡ none) ⊎ (s.entry.dirty ≡ true)
    pending_lem none calls e h = inl refl
    pending_lem (some d) [] e h = ground (arith, h, save, retry)
    pending_lem (some d) (a ∷ calls) e h = cc

-- In a state that edits, flushes, drops, timers and answers lead to, once the human does nothing
-- more: every sequence of timers that fire and calls that are answered or fail, in whatever order,
-- is at most `work_left` steps long; and it either goes on, or has ended with the draft saved or
-- shown as not saved.
pub persist-IsSettled :
    (s t : Persist) (n : ℕ)
    → Steps start s
    → OwnSteps n s t
    → (n ≤ work_left s) × (((u : Persist) × OwnStep t u) ⊎ IsSettled t)
persist-IsSettled s t n steps own = (
  omega (arith, OwnSteps-work_left n s t own),
  elim (goes_on t) [
    | inl more ↦ inl more
    | inr quiet ↦
        inr (quiet-IsSettled t (persist-IsAccounted t (OwnSteps-Steps n start s t steps own)) quiet)
  ],
)
