-- ===== src/PollLoop/Tick.antt =====
-- One tick of the loop, and what it serves. `load` and the calls of GitHub are made in the order of
-- the source; any of them may fail.
use revu.Prelude.{
  ℕ, ◌+◌, Bool, true, false, not, Option, none, some, List, [], map, filter, if◌then◌else◌, Text,
  text_eq, leb,
}
use revu.Prelude.Results.{ok, err}
use revu.PollLoop.{
  ChecksRollup, PullSummary, BrokerPullMeta, PullListItem, RateLimitInfo, CacheState, LoopState,
  FactsRefresh, not_modified, listed, Failure, Environment, sort_by, unknown_rate_limit,
  default_meta, carried_meta, meta_from_facts, settle_rollup, annotations_for, last_item,
  has_number, changed_numbers, unsettled_numbers, refresh_facts, sweep_unsettled_checks,
}

abbrev pub or_else {ℓ} : {A : Type ℓ} → Option A → A → A
or_else none y = y
or_else (some x) y = x

abbrev pub cached_etag : Option CacheState → Option Text
cached_etag none = none
cached_etag (some cache) = some cache.list_etag

abbrev pub cached_items : Option CacheState → List PullListItem
cached_items none = []
cached_items (some cache) = cache.items

abbrev pub cached_limit : Option CacheState → RateLimitInfo
cached_limit none = unknown_rate_limit
cached_limit (some cache) = cache.rate_limit

-- An item of a list that GitHub says is unchanged.
abbrev pub reannotated :
    Environment → (ℕ → Option (Option ChecksRollup)) → PullListItem → PullListItem
reannotated env swept it = record {
  pull = it.pull;
  broker =
      carried_meta it.broker (annotations_for env it.pull)
        (settle_rollup (swept it.pull.number) it.broker.checks);
}

abbrev prior_checks : Option PullListItem → Option ChecksRollup
prior_checks none = none
prior_checks (some prior) = prior.broker.checks

abbrev pub base_meta :
    Environment
    → FactsRefresh
    → Option PullListItem
    → PullSummary
    → Option ChecksRollup
    → BrokerPullMeta
base_meta env refreshed carried pull = elim (refreshed.facts pull.number) [
  | some fresh ↦ meta_from_facts fresh (annotations_for env pull)
  | none ↦ elim carried [
    | some prior ↦ carried_meta prior.broker (annotations_for env pull)
    | none ↦ default_meta pull (annotations_for env pull)
  ]
]

-- An item of a list that GitHub gave.
abbrev pub refreshed_item :
    Environment → FactsRefresh → List PullListItem → PullSummary → PullListItem
refreshed_item env refreshed prior pull = record {
  pull = pull;
  broker =
      base_meta env refreshed (last_item prior pull.number) pull
        (settle_rollup (refreshed.checks pull.number) (prior_checks (last_item prior pull.number)));
}

-- What a tick has done: it leaves the cache as it was and fails or not, or it sets it.
pub data Outcome : Type 0 where
  failed : Failure → Outcome
  nothing_listed : Outcome
  cached : CacheState → Outcome

-- `etag_of` is brokerEtag, `localeCompare` orders the times.
module _ (etag_of : Text → List PullListItem → Text) (later : Text → Text → Bool) where
  -- Newest first; equal times keep their order.
  abbrev pub sort_items : List PullListItem → List PullListItem
  sort_items = sort_by (λ a b. later b.pull.updated_at a.pull.updated_at)

  abbrev pub after_not_modified : Environment → Option CacheState → Option RateLimitInfo → Outcome
  after_not_modified env none limit = nothing_listed
  after_not_modified env (some cache) limit =
      let items = map (reannotated env (sweep_unsettled_checks env cache.items)) cache.items in
      cached record {
        items = items;
        list_etag = cache.list_etag;
        broker_etag = etag_of cache.list_etag items;
        rate_limit = or_else limit cache.rate_limit;
      }

  abbrev pub after_listed :
      Environment → Option CacheState → List PullSummary → Text → Option RateLimitInfo → Outcome
  after_listed env cache pulls etag limit =
      let prior = cached_items cache in
      let changed = changed_numbers pulls prior in
      let changed_pulls = filter (λ pull. has_number changed pull.number) pulls in
      let watching = filter (λ n. not (has_number changed n)) (unsettled_numbers prior) in
      elim (refresh_facts env changed_pulls watching) [
        | err thrown ↦ failed thrown
        | ok refreshed ↦
            let items = sort_items (map (refreshed_item env refreshed prior) pulls) in
            cached record {
              items = items;
              list_etag = etag;
              broker_etag = etag_of etag items;
              rate_limit = or_else limit (cached_limit cache);
            }
      ]

  -- The body of pollOnce between the flag's two assignments.
  unfoldable pub poll : Environment → Option CacheState → Outcome
  poll env cache = elim env.load [
    | err thrown ↦ failed thrown
    | ok _ ↦ elim (env.list_open_pulls (cached_etag cache)) [
      | err thrown ↦ failed thrown
      | ok page ↦ elim page [
        | not_modified limit ↦ after_not_modified env cache limit
        | listed pulls etag limit ↦ after_listed env cache pulls etag limit
      ]
    ]
  ]

  abbrev pub settled : LoopState → Outcome → LoopState
  settled st (failed thrown) = record st {
    consecutive_failures = st.consecutive_failures + 1;
    in_flight = false;
  }
  settled st nothing_listed = record st { in_flight = false }
  settled st (cached cache) = record {
    cache = some cache;
    consecutive_failures = 0;
    in_flight = false;
  }

  -- pollOnce up to its first await: an overlapping call returns at once.
  abbrev pub begin_tick : LoopState → LoopState
  begin_tick st = if st.in_flight then st else record st { in_flight = true }

  -- The rest of pollOnce, with what it is answered.
  unfoldable pub end_tick : Environment → LoopState → LoopState
  unfolding poll
  end_tick env st = settled st (poll env st.cache)

pub record PullListResponse : Type 0 where
  pub items : List PullListItem
  pub etag : Text
  pub not_modified : Bool
  pub rate_limit : RateLimitInfo

abbrev pub etag_matches : Option Text → Text → Bool
etag_matches none etag = false
etag_matches (some given) etag = text_eq given etag

abbrev pub served : CacheState → Option Text → PullListResponse
served cache if_none_match =
    let same = etag_matches if_none_match cache.broker_etag in
    record {
      items = if same then [] else cache.items;
      etag = cache.broker_etag;
      not_modified = same;
      rate_limit = cache.rate_limit;
    }

-- `none` where it throws PollUnavailableError
unfoldable pub list_pulls : ℕ → LoopState → Option Text → Option PullListResponse
list_pulls max_stale_ticks st if_none_match = elim st.cache [
  | none ↦ none
  | some cache ↦
      if leb max_stale_ticks st.consecutive_failures
      then none
      else some (served cache if_none_match)
]

abbrev pub initial_loop : LoopState
initial_loop = record { cache = none; consecutive_failures = 0; in_flight = false }
