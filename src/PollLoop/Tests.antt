-- ===== src/PollLoop/Tests.antt =====
-- A tick that warms the cache, and an outage of two ticks.
use revu.Prelude.{
  ◌≡◌, refl, Bool, false, none, some, List, [], ◌∷◌, map, All, if◌then◌else◌, length, Text, codes,
  leb, text_eq, to_lower,
}
use revu.Prelude.Results.{ok, err}
use revu.PollLoop.{
  success, ChecksRollup, PullSummary, PullListItem, CacheState, LoopState, listed, other_failure,
  awaiting_credential, Environment, broker_etag, refresh_facts, default_max_stale_ticks,
  unknown_rate_limit,
}
use revu.PollLoop.Tick.{cached, poll, end_tick, served, list_pulls, initial_loop}
use revu.PollLoop.Annotated.{Lists, poll-Lists}
use revu.PollLoop.Outage.{ticks, IsFailing, list_pulls-ticks}

abbrev etag_of : Text → List PullListItem → Text
etag_of = broker_etag (λ n. n ∷ []) (map (λ row. row.pr))

abbrev later : Text → Text → Bool
later a b = false

abbrev pull : PullSummary
pull = record {
  number = 7;
  head_sha = codes "h";
  base_sha = codes "b";
  updated_at = codes "2024-01-01";
  login = codes "Revu-Bot";
  rest = [];
}

abbrev green : ChecksRollup
green = record { state = success; total = 3 }

abbrev online : Environment
online = record {
  load = ok tt;
  recorded_author = λ n. some (some (codes "alice@example.com"));
  assignments_for = λ n. codes "bob@example.com" ∷ [];
  bot_login = some (codes "revu-bot");
  list_open_pulls = λ etag. ok (listed (pull ∷ []) (codes "e") none);
  get_pull_facts = λ numbers.
      ok
        (λ n. some record { unresolved_threads = 2; commit_count = 4; checks = some (some green) });
  get_compare = λ base head. ok (codes "m");
}

abbrev items : List PullListItem
items =
    record {
      pull = pull;
      broker = record {
        author_human_id = some (codes "alice@example.com");
        can_approve = false;
        unresolved_threads = 2;
        assigned_reviewer_human_ids = codes "bob@example.com" ∷ [];
        compare_key = codes "m...h";
        commit_count = 4;
        checks = some green;
      };
    }
    ∷ []

abbrev warm : CacheState
warm = record {
  items = items;
  list_etag = codes "e";
  broker_etag = etag_of (codes "e") items;
  rate_limit = unknown_rate_limit;
}

warming : poll etag_of later online none ≡ cached warm
unfolding poll refresh_facts text_eq to_lower
warming = refl

poll-Lists_example : Lists etag_of later online none warm
poll-Lists_example = poll-Lists etag_of later online none warm warming

-- GitHub does not answer; then the credential is gone.
abbrev offline : Environment
offline = record online { list_open_pulls = λ etag. err other_failure }

abbrev rotating : Environment
rotating = record online { list_open_pulls = λ etag. err awaiting_credential }

abbrev outage : List Environment
outage = offline ∷ rotating ∷ []

outage-IsFailing : All (IsFailing etag_of later (some warm)) outage
unfolding poll
outage-IsFailing = ((other_failure, refl), ((awaiting_credential, refl), tt))

served_in_outage :
    list_pulls default_max_stale_ticks
      (ticks etag_of later (end_tick etag_of later online initial_loop) outage)
      none
    ≡ some (served warm none)
served_in_outage =
    (list_pulls-ticks etag_of later default_max_stale_ticks none outage).0 online initial_loop warm
      warming outage-IsFailing

list_pulls-ticks_example :
    ((env : Environment) (st : LoopState) (cache : CacheState)
      → poll etag_of later env st.cache ≡ cached cache
      → All (IsFailing etag_of later (some cache)) outage
      → list_pulls default_max_stale_ticks
          (ticks etag_of later (end_tick etag_of later env st) outage)
          none
        ≡ (if leb default_max_stale_ticks (length outage) then none else some (served cache none)))
    × (All (IsFailing etag_of later none) outage
        → list_pulls default_max_stale_ticks (ticks etag_of later initial_loop outage) none ≡ none)
list_pulls-ticks_example = list_pulls-ticks etag_of later default_max_stale_ticks none outage
