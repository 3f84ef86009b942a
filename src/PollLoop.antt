-- ===== src/PollLoop.antt =====
-- The loop in which the broker polls the list of open pull requests and serves it
-- (packages/revud/src/broker/poll-loop.ts). What GitHub and the files of the host answer during one
-- tick is an `Environment`; Maps are functions on numbers. The timer is not modelled: a tick
-- may begin and end at any time. `locale_compare a b` is true where `b` comes first in
-- `a.localeCompare(b) > 0`, `stringify` and `hex` are JSON.stringify and toString(16).
pub mod Tick
mod Sorted
pub mod Annotated
pub mod Outage
mod Tests
use revu.Prelude.{
  ℕ, suc, ◌+◌, ◌*◌, Bool, true, false, not, ◌&&◌, ◌||◌, Option, none, some, List, [], ◌∷◌, ◌++◌,
  map, filter, any, if◌then◌else◌, Text, codes, text_eq, to_lower, is_empty, ◌==◌, leb,
}
use Prim.Native.Nat.{◌%◌}
use revu.Prelude.Results.{Result, ok, err}

abbrev pub default_max_stale_ticks : ℕ
default_max_stale_ticks = 5

pub data ChecksState : Type 0 where
  success failure pending : ChecksState

pub record ChecksRollup : Type 0 where
  pub state : ChecksState
  pub total : ℕ

-- `rest` is what the loop carries and does not read.
pub record PullSummary : Type 0 where
  pub number : ℕ
  pub head_sha : Text
  pub base_sha : Text
  pub updated_at : Text
  pub login : Text
  pub rest : Text

pub record BrokerPullMeta : Type 0 where
  pub author_human_id : Option Text
  pub can_approve : Bool
  pub unresolved_threads : ℕ
  pub assigned_reviewer_human_ids : List Text
  pub compare_key : Text
  pub commit_count : ℕ
  pub checks : Option ChecksRollup

pub record PullListItem : Type 0 where
  pub pull : PullSummary
  pub broker : BrokerPullMeta

pub record RateLimitInfo : Type 0 where
  pub limit : ℕ
  pub remaining : ℕ
  pub used : ℕ
  pub reset : Text

pub record CacheState : Type 0 where
  pub items : List PullListItem
  pub list_etag : Text
  pub broker_etag : Text
  pub rate_limit : RateLimitInfo

pub record LoopState : Type 0 where
  pub cache : Option CacheState
  pub consecutive_failures : ℕ
  pub in_flight : Bool

pub record PullAnnotations : Type 0 where
  pub author_human_id : Option Text
  pub can_approve : Bool
  pub assigned_reviewer_human_ids : List Text

-- `checks` is `none` where the query gave no such field and `some none` where it gave null.
pub record PollPullFacts : Type 0 where
  pub unresolved_threads : ℕ
  pub commit_count : ℕ
  pub checks : Option (Option ChecksRollup)

pub record PullMetaFacts : Type 0 where
  pub unresolved_threads : ℕ
  pub commit_count : ℕ
  pub compare_key : Text

pub record FactsRefresh : Type 0 where
  pub facts : ℕ → Option PullMetaFacts
  pub checks : ℕ → Option (Option ChecksRollup)

pub data Page : Type 0 where
  not_modified : Option RateLimitInfo → Page
  listed : List PullSummary → Text → Option RateLimitInfo → Page

pub data Failure : Type 0 where
  awaiting_credential other_failure : Failure

-- `recorded_author` is `none` where nothing was recorded and `some none` for a recorded null.
-- Without a resolver or a reviewers file these answer `none` and no reviewers.
pub record Environment : Type 0 where
  pub load : Result {0, 0} Failure Unit
  pub recorded_author : ℕ → Option (Option Text)
  pub assignments_for : ℕ → List Text
  pub bot_login : Option Text
  pub list_open_pulls : Option Text → Result Failure Page
  pub get_pull_facts : List ℕ → Result Failure (ℕ → Option PollPullFacts)
  pub get_compare : Text → Text → Result Failure Text

abbrev pub djb2 : ℕ → Text → ℕ
djb2 hash [] = hash
djb2 hash (c ∷ s) = djb2 ((hash * 33 + c) % 4294967296) s

pub record AnnotationRow : Type 0 where
  pub pr : ℕ
  pub author_human_id : Option Text
  pub can_approve : Bool
  pub assigned_reviewer_human_ids : List Text
  pub checks : Option ChecksRollup

-- A stable sort.
module _ {R : Type 0} (after : R → R → Bool) where
  abbrev pub insert_sorted : R → List R → List R
  insert_sorted r [] = r ∷ []
  insert_sorted r (x ∷ xs) =
      let rest = insert_sorted r xs in if after r x then x ∷ rest else r ∷ x ∷ xs

  abbrev pub sort_by : List R → List R
  sort_by [] = []
  sort_by (r ∷ rs) = insert_sorted r (sort_by rs)

pub serialize_annotations : (List AnnotationRow → Text) → List PullListItem → Text
serialize_annotations stringify items = stringify (
    sort_by (λ a b. not (leb a.pr b.pr))
      (map
        (λ it. record {
          pr = it.pull.number;
          author_human_id = it.broker.author_human_id;
          can_approve = it.broker.can_approve;
          assigned_reviewer_human_ids = it.broker.assigned_reviewer_human_ids;
          checks = it.broker.checks;
        })
        items))

-- The hash of the annotations makes the tag move when they do.
pub broker_etag : (ℕ → Text) → (List AnnotationRow → Text) → Text → List PullListItem → Text
unfolding serialize_annotations
broker_etag hex stringify list_etag items =
    codes "W/\"pulls:"
    ++ (hex (djb2 5381 list_etag)
        ++ (b':' ∷ (hex (djb2 5381 (serialize_annotations stringify items)) ++ (b'"' ∷ []))))

abbrev pub unknown_rate_limit : RateLimitInfo
unknown_rate_limit = record {
  limit = 0;
  remaining = 0;
  used = 0;
  reset = codes "1970-01-01T00:00:00.000Z";
}

-- A BrokerPullMeta from its annotations, its facts and its rollup.
abbrev pub meta_of : PullAnnotations → ℕ → Text → ℕ → Option ChecksRollup → BrokerPullMeta
meta_of annotations threads key commits rollup = record {
  author_human_id = annotations.author_human_id;
  can_approve = annotations.can_approve;
  unresolved_threads = threads;
  assigned_reviewer_human_ids = annotations.assigned_reviewer_human_ids;
  compare_key = key;
  commit_count = commits;
  checks = rollup;
}

abbrev pub dots : Text → Text → Text
dots base head = base ++ (codes "..." ++ head)

abbrev pub default_meta : PullSummary → PullAnnotations → Option ChecksRollup → BrokerPullMeta
default_meta pull annotations = meta_of annotations 0 (dots pull.base_sha pull.head_sha) 0

abbrev pub carried_meta : BrokerPullMeta → PullAnnotations → Option ChecksRollup → BrokerPullMeta
carried_meta prior annotations =
    meta_of annotations prior.unresolved_threads prior.compare_key prior.commit_count

abbrev pub meta_from_facts : PullMetaFacts → PullAnnotations → Option ChecksRollup → BrokerPullMeta
meta_from_facts facts annotations =
    meta_of annotations facts.unresolved_threads facts.compare_key facts.commit_count

abbrev pub settle_rollup : Option (Option ChecksRollup) → Option ChecksRollup → Option ChecksRollup
settle_rollup none prior = prior
settle_rollup (some observed) prior = observed

abbrev real_author : Option (Option Text) → Option Text
real_author none = none
real_author (some none) = none
real_author (some (some id)) = if is_empty id then none else some id

abbrev approvable : Option Text → Text → Bool
approvable none login = true
approvable (some bot) login =
    if is_empty bot then true else not (text_eq (to_lower login) (to_lower bot))

abbrev pub annotations_for : Environment → PullSummary → PullAnnotations
annotations_for env pull = record {
  author_human_id = real_author (env.recorded_author pull.number);
  can_approve = approvable env.bot_login pull.login;
  assigned_reviewer_human_ids = env.assignments_for pull.number;
}

-- A Map from numbers, built in order: the last entry of a number wins.
abbrev pub last_item : List PullListItem → ℕ → Option PullListItem
last_item [] n = none
last_item (it ∷ items) n = elim (last_item items n) [
  | some later ↦ some later
  | none ↦ if it.pull.number == n then some it else none
]

abbrev has_moved : PullSummary → Option PullListItem → Bool
has_moved pull none = true
has_moved pull (some before) =
    not (text_eq before.pull.head_sha pull.head_sha)
    || not (text_eq before.pull.updated_at pull.updated_at)
    || not (text_eq before.pull.base_sha pull.base_sha)

abbrev pub has_number : List ℕ → ℕ → Bool
has_number ns n = any (λ m. m == n) ns

abbrev pub number_of : PullSummary → ℕ
number_of pull = pull.number

abbrev pub changed_numbers : List PullSummary → List PullListItem → List ℕ
changed_numbers next prior =
    map number_of (filter (λ pull. has_moved pull (last_item prior pull.number)) next)

abbrev pub is_unsettled : Option ChecksRollup → Bool
is_unsettled none = false
is_unsettled (some rollup) = elim rollup.state [ pending ↦ true | _ ↦ false ]

abbrev pub unsettled_numbers : List PullListItem → List ℕ
unsettled_numbers items =
    map (λ it. it.pull.number) (filter (λ it. is_unsettled it.broker.checks) items)

abbrev observed_checks : Option PollPullFacts → Option (Option ChecksRollup)
observed_checks none = none
observed_checks (some c) = c.checks

abbrev threads_in : Option PollPullFacts → ℕ
threads_in none = 0
threads_in (some c) = c.unresolved_threads

abbrev commits_in : Option PollPullFacts → ℕ
commits_in none = 0
commits_in (some c) = c.commit_count

-- A pull whose compare fails is left out.
abbrev facts_of : Environment → PullSummary → Option PollPullFacts → Option PullMetaFacts
facts_of env pull c = elim (env.get_compare pull.base_sha pull.head_sha) [
  | err thrown ↦ none
  | ok merge_base ↦ some record {
    unresolved_threads = threads_in c;
    commit_count = commits_in c;
    compare_key = dots merge_base pull.head_sha;
  }
]

abbrev facts_in :
    Environment → (ℕ → Option PollPullFacts) → List PullSummary → ℕ → Option PullMetaFacts
facts_in env counts [] n = none
facts_in env counts (pull ∷ pulls) n = elim (facts_in env counts pulls n) [
  | some later ↦ some later
  | none ↦ if pull.number == n then facts_of env pull (counts pull.number) else none
]

pub refresh_facts : Environment → List PullSummary → List ℕ → Result Failure FactsRefresh
refresh_facts env changed also_watch =
    let numbers = map number_of changed ++ also_watch in
    if is_empty numbers
    then ok record { facts = λ n. none; checks = λ n. none }
    else elim (env.get_pull_facts numbers) [
      | err thrown ↦ err thrown
      | ok counts ↦ ok record {
        facts = facts_in env counts changed;
        checks = λ n. if has_number numbers n then observed_checks (counts n) else none;
      }
    ]

-- A sweep that fails has observed nothing.
pub sweep_unsettled_checks : Environment → List PullListItem → ℕ → Option (Option ChecksRollup)
unfolding refresh_facts
sweep_unsettled_checks env items = elim (refresh_facts env [] (unsettled_numbers items)) [
  | err thrown ↦ λ n. none
  | ok refresh ↦ refresh.checks
]
