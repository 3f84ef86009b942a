-- ===== src/Drafts/Saving.antt =====
-- drafts.ts, the saving of a draft: what holds of the entry and the calls through every step.
use revu.Prelude.{
  ℕ, ◌≡◌, refl, arith, Bool, true, false, Bool-cases, inl, inr, ◌⊎◌, ◌↔◌, Option, none, some, List,
  [], ◌∷◌, ◌++◌,
}
use revu.Drafts.{
  Written, PersistEntry, Attempt, Persist, no_entry, is_pending, attempt_save, save_answered,
  save_failed, schedule_save, flush_save, drop_persist_state, save_timer_fires, retry_timer_fires,
  Step, edited, flushed, dropped, save_fired, retry_fired, answered, failed, Steps, here, then_step,
}

-- A call of saveDraft that has not been answered carries the document.
abbrev pub IsFlying : ℕ → List Attempt → Type 0
IsFlying o [] = ⊥
IsFlying o (a ∷ calls) = (o ≡ a.written.object) ⊎ IsFlying o calls

IsFlying-append :
    (o : ℕ) (xs ys : List Attempt) → IsFlying o (xs ++ ys) ↔ (IsFlying o xs ⊎ IsFlying o ys)
IsFlying-append o [] ys = ground arith
IsFlying-append o (x ∷ xs) ys = let rest = IsFlying-append o xs ys in ground arith

abbrev pub IsOnItsWay : Option Written → PersistEntry → List Attempt → Type 0
IsOnItsWay none e calls = Unit
IsOnItsWay (some d) e calls =
    (e.save_timer ≡ true) ⊎ (e.retry_timer ≡ true) ⊎ (e.dirty ≡ true) ⊎ IsFlying d.object calls

-- A timer is armed, the document is in flight, or the bar shows that the draft is not saved.
abbrev pub IsAccounted : Persist → Type 0
IsAccounted s = IsOnItsWay s.entry.pending s.entry s.in_flight

sent :
    (p : Option Written) (e' : PersistEntry) (is_retry : Bool) (calls : List Attempt)
    → IsAccounted
        (attempt_save record { entry = record e' { pending = p }; in_flight = calls } is_retry)
unfolding attempt_save
sent none e' is_retry calls = tt
sent (some d) e' is_retry calls = inr (
    inr (
      inr (
        (IsFlying-append d.object calls (record { written = d; is_retry = is_retry } ∷ [])).1
          (inr (inl refl)))))

landed :
    (p : Option Written) (e : PersistEntry) (before after : List Attempt) (a : Attempt)
    → IsOnItsWay p e (before ++ (a ∷ after))
    → is_pending a.written p ≡ false
    → IsOnItsWay p e (before ++ after)
landed none e before after a h k = tt
landed (some d) e before after a h k =
    let all = IsFlying-append d.object before (a ∷ after) in
    let left = IsFlying-append d.object before after in ground arith

flushed-IsAccounted :
    (p : Option Written) (e : PersistEntry) (calls : List Attempt)
    → IsAccounted (flush_save record { entry = record e { pending = p }; in_flight = calls })
unfolding flush_save
flushed-IsAccounted none e calls = tt
flushed-IsAccounted (some d) e calls =
    sent (some d) (record e { save_timer = false; retry_timer = false }) false calls

told :
    (p : Option Written) (e : PersistEntry) (calls : List Attempt)
    → (e.retry_timer ≡ true) ⊎ (e.dirty ≡ true)
    → IsOnItsWay p e calls
told none e calls h = tt
told (some d) e calls h = ground arith

failed-IsAccounted :
    (e : PersistEntry) (before after : List Attempt) (a : Attempt)
    → IsOnItsWay e.pending e (before ++ (a ∷ after))
    → IsOnItsWay (save_failed e a).pending (save_failed e a) (before ++ after)
unfolding save_failed
failed-IsAccounted e before after a h = elim (Bool-cases (is_pending a.written e.pending)) [
  | inl k ↦ elim (Bool-cases a.is_retry) [
    | inl again ↦
        rw (k, again) (told e.pending (record e { dirty = true }) (before ++ after) (inr refl))
    | inr first ↦
        rw (k, first)
          (told e.pending (record e { retry_timer = true }) (before ++ after) (inl refl))
  ]
  | inr k ↦ rw k (landed e.pending e before after a h k)
]

Step-IsAccounted : (s t : Persist) → Step s t → IsAccounted s → IsAccounted t
unfolding schedule_save flush_save drop_persist_state save_timer_fires retry_timer_fires
    save_answered save_failed
Step-IsAccounted s t (edited s' d) h = inl refl
Step-IsAccounted s t (flushed s') h = flushed-IsAccounted s.entry.pending s.entry s.in_flight
Step-IsAccounted s t (dropped s') h = tt
Step-IsAccounted s t (save_fired s' armed) h =
    sent s.entry.pending (record s.entry { save_timer = false }) false s.in_flight
Step-IsAccounted s t (retry_fired s' armed) h =
    sent s.entry.pending (record s.entry { retry_timer = false }) true s.in_flight
Step-IsAccounted s t (answered e before after a) h =
    elim (Bool-cases (is_pending a.written e.pending)) [
      | inl k ↦ rw k tt
      | inr k ↦ rw k (landed e.pending e before after a h k)
    ]
Step-IsAccounted s t (failed e before after a) h = failed-IsAccounted e before after a h

Steps-IsAccounted : (s t : Persist) → Steps s t → IsAccounted s → IsAccounted t
Steps-IsAccounted s t (here s') h = h
Steps-IsAccounted s u (then_step s' t u' steps step) h =
    Step-IsAccounted t u step (Steps-IsAccounted s t steps h)

abbrev pub start : Persist
start = record { entry = no_entry; in_flight = [] }

-- In every state that edits, flushes, drops, timers and answers lead to from the start, in whatever
-- order: a draft that waits to be saved has an armed timer, or is in flight, or is marked as not saved.
pub persist-IsAccounted : (s : Persist) → Steps start s → IsAccounted s
persist-IsAccounted s steps = Steps-IsAccounted start s steps tt
