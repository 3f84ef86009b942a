-- ===== src/PollLoop/Outage.antt =====
-- What the loop serves while its ticks fail.
use revu.Prelude.{
  ℕ, ◌+◌, ◌≡◌, refl, ap, ◌∙◌, Bool, false, Option, none, some, List, [], ◌∷◌, All, if◌then◌else◌,
  length, Text, leb, arith,
}
use revu.PollLoop.{PullListItem, CacheState, LoopState, Failure, Environment}
use revu.PollLoop.Tick.{
  failed, cached, poll, begin_tick, end_tick, served, list_pulls, initial_loop,
}

module _ (etag_of : Text → List PullListItem → Text) (later : Text → Text → Bool) where
  -- Ticks that begin when the one before has ended.
  abbrev pub ticks : LoopState → List Environment → LoopState
  ticks st [] = st
  ticks st (env ∷ envs) = ticks (end_tick etag_of later env (begin_tick etag_of later st)) envs

  abbrev pub IsFailing : Option CacheState → Environment → Type 0
  IsFailing cache env = (thrown : Failure) × (poll etag_of later env cache ≡ failed thrown)

  abbrev waiting : Option CacheState → ℕ → LoopState
  waiting cache n = record { cache = cache; consecutive_failures = n; in_flight = false }

  end_tick-failing :
      (env : Environment) (cache : Option CacheState) (n : ℕ)
      → IsFailing cache env
      → end_tick etag_of later env (begin_tick etag_of later (waiting cache n))
        ≡ waiting cache (n + 1)
  unfolding end_tick
  end_tick-failing env cache n (thrown, h) = rw (end_tick, h) refl

  ticks-failing :
      (envs : List Environment) (cache : Option CacheState) (n : ℕ)
      → All (IsFailing cache) envs
      → ticks (waiting cache n) envs ≡ waiting cache (n + length envs)
  ticks-failing [] cache n h = ap (waiting cache) (omega arith)
  ticks-failing (env ∷ envs) cache n (h, hs) =
      ap (λ st. ticks st envs) (end_tick-failing env cache n h)
      ∙ ticks-failing envs cache (n + 1) hs
      ∙ ap (waiting cache) (omega arith)

  end_tick-cached :
      (env : Environment) (st : LoopState) (cache : CacheState)
      → poll etag_of later env st.cache ≡ cached cache
      → end_tick etag_of later env st ≡ waiting (some cache) 0
  unfolding end_tick
  end_tick-cached env st cache h = rw (end_tick, h) refl

  list_pulls-waiting :
      (max_stale_ticks n : ℕ) (cache : CacheState) (if_none_match : Option Text)
      → list_pulls max_stale_ticks (waiting (some cache) n) if_none_match
        ≡ (if leb max_stale_ticks n then none else some (served cache if_none_match))
  unfolding list_pulls
  list_pulls-waiting max_stale_ticks n cache if_none_match = refl

  list_pulls-nothing :
      (max_stale_ticks n : ℕ) (if_none_match : Option Text)
      → list_pulls max_stale_ticks (waiting none n) if_none_match ≡ none
  unfolding list_pulls
  list_pulls-nothing max_stale_ticks n if_none_match = refl

  -- After a tick that set the cache, and any number of ticks that failed since, the loop serves what
  -- that tick cached as long as fewer ticks have failed than the limit, and is unavailable from the
  -- limit on. While every tick so far has failed it is unavailable.
  pub list_pulls-ticks :
      (max_stale_ticks : ℕ) (if_none_match : Option Text) (outage : List Environment)
      → ((env : Environment) (st : LoopState) (cache : CacheState)
          → poll etag_of later env st.cache ≡ cached cache
          → All (IsFailing (some cache)) outage
          → list_pulls max_stale_ticks (ticks (end_tick etag_of later env st) outage) if_none_match
            ≡ (if leb max_stale_ticks (length outage)
                then none
                else some (served cache if_none_match)))
        × (All (IsFailing none) outage
            → list_pulls max_stale_ticks (ticks initial_loop outage) if_none_match ≡ none)
  list_pulls-ticks max_stale_ticks if_none_match outage = (
    λ env st cache h failing.
        ap (λ x. list_pulls max_stale_ticks x if_none_match)
          (ap (λ x. ticks x outage) (end_tick-cached env st cache h)
            ∙ ticks-failing outage (some cache) 0 failing)
        ∙ list_pulls-waiting max_stale_ticks (0 + length outage) cache if_none_match
        ∙ ap (λ n. if leb max_stale_ticks n then none else some (served cache if_none_match))
            (omega arith),
    λ failing.
        ap (λ x. list_pulls max_stale_ticks x if_none_match) (ticks-failing outage none 0 failing)
        ∙ list_pulls-nothing max_stale_ticks (0 + length outage) if_none_match,
  )
