-- ===== src/PollLoop/Annotated.antt =====
-- What a tick that sets the cache has put there.
use revu.Prelude.{
  ℕ, ◌≡◌, refl, sym, ap, subst, ◌∙◌, Bool, not, inl, inr, ◌⊎◌, Option, none, some, Option-cases,
  List, [], ◌∷◌, map, filter, All, All-Contains, All-map, Contains-map, length-map, Contains-All,
  Contains, length, Text,
}
use revu.Prelude.Results.{ok, Result-cases}
use revu.PollLoop.{
  ChecksRollup, PullSummary, PullListItem, RateLimitInfo, CacheState, FactsRefresh, Page,
  not_modified, listed, Environment, sort_by, annotations_for, last_item, has_number,
  changed_numbers, unsettled_numbers, refresh_facts, sweep_unsettled_checks,
}
use revu.PollLoop.Sorted.{Contains-sort_by, length-sort_by}
use revu.PollLoop.Tick.{
  Outcome, failed, cached, cached_items, cached_etag, reannotated, base_meta, refreshed_item,
  sort_items, or_else, cached_limit, after_not_modified, after_listed, poll,
}

map-map :
    {A B C : Type 0} (f : A → B) (g : B → C) (h : A → C)
    → ((x : A) → g (f x) ≡ h x)
    → (xs : List A) → map g (map f xs) ≡ map h xs
map-map f g h same [] = refl
map-map f g h same (x ∷ xs) = rw (same x, map-map f g h same xs) refl

abbrev pub pull_of : PullListItem → PullSummary
pull_of it = it.pull

map-pull_of :
    (env : Environment) (refreshed : FactsRefresh) (prior : List PullListItem)
    (pulls : List PullSummary)
    → map pull_of (map (refreshed_item env refreshed prior) pulls) ≡ pulls
map-pull_of env refreshed prior [] = refl
map-pull_of env refreshed prior (pull ∷ pulls) =
    ap (λ ps. pull ∷ ps) (map-pull_of env refreshed prior pulls)

-- The author, the approvability and the reviewers are those of the tick.
abbrev pub IsAnnotated : Environment → PullListItem → Type 0
IsAnnotated env it =
    (it.broker.author_human_id ≡ (annotations_for env it.pull).author_human_id)
    × (it.broker.can_approve ≡ (annotations_for env it.pull).can_approve)
    × (it.broker.assigned_reviewer_human_ids
        ≡ (annotations_for env it.pull).assigned_reviewer_human_ids)

reannotated-IsAnnotated :
    (env : Environment) (swept : ℕ → Option (Option ChecksRollup)) (it : PullListItem)
    → IsAnnotated env (reannotated env swept it)
reannotated-IsAnnotated env swept it = (refl, refl, refl)

refreshed_item-IsAnnotated :
    (env : Environment) (refreshed : FactsRefresh) (prior : List PullListItem) (pull : PullSummary)
    → IsAnnotated env (refreshed_item env refreshed prior pull)
refreshed_item-IsAnnotated env refreshed prior pull =
    elim (Option-cases (refreshed.facts pull.number)) [
      | inr (fresh, e) ↦ rw (base_meta, e) (refl, refl, refl)
      | inl e ↦ elim (Option-cases (last_item prior pull.number)) [
        | inr (it, f) ↦ rw (base_meta, e, f) (refl, refl, refl)
        | inl f ↦ rw (base_meta, e, f) (refl, refl, refl)
      ]
    ]

cached_inj : {a b : CacheState} → cached a ≡ cached b → a ≡ b
cached_inj e = cc

-- The part of an item that the list and the compares decide.
abbrev pub facts_part : PullListItem → PullSummary × ℕ × Text × ℕ
facts_part it =
    (it.pull, it.broker.unresolved_threads, it.broker.compare_key, it.broker.commit_count)

module _ (etag_of : Text → List PullListItem → Text) (later : Text → Text → Bool) where
  -- What has been put in the cache, by the answer of the list.
  abbrev pub Lists : Environment → Option CacheState → CacheState → Type 0
  Lists env before after =
      All (IsAnnotated env) after.items
      × (after.broker_etag ≡ etag_of after.list_etag after.items)
      × (((prior : CacheState) × (limit : Option RateLimitInfo) × (before ≡ some prior)
            × (env.list_open_pulls (some prior.list_etag) ≡ ok (not_modified limit))
            × (map facts_part after.items ≡ map facts_part prior.items)
            × (after.list_etag ≡ prior.list_etag))
          ⊎ ((pulls : List PullSummary) × (limit : Option RateLimitInfo) × (env.list_open_pulls
                  (cached_etag before)
                ≡ ok (listed pulls after.list_etag limit))
              × (length after.items ≡ length pulls)
              × ((it : PullListItem) → Contains it after.items → Contains it.pull pulls)
              × ((pull : PullSummary)
                  → Contains pull pulls
                  → Contains pull (map pull_of after.items))))

  after_not_modified-Lists :
      (env : Environment) (before : Option CacheState) (limit : Option RateLimitInfo)
      (after : CacheState)
      → env.list_open_pulls (cached_etag before) ≡ ok (not_modified limit)
      → after_not_modified etag_of later env before limit ≡ cached after
      → Lists env before after
  after_not_modified-Lists env none limit after page h = cc
  after_not_modified-Lists env (some prior) limit after page h =
      let swept = sweep_unsettled_checks env prior.items in
      subst (Lists env (some prior)) (cached_inj h) (
        All-map (reannotated env swept) (IsAnnotated env) (reannotated-IsAnnotated env swept)
            prior.items,
        refl,
        inl (
          prior,
          limit,
          refl,
          page,
          map-map (reannotated env swept) facts_part facts_part (λ it. refl) prior.items,
          refl,
        ),
      )

  sorted-Lists :
      (env : Environment) (before : Option CacheState) (pulls : List PullSummary) (etag : Text)
      (limit : Option RateLimitInfo) (rate : RateLimitInfo) (refreshed : FactsRefresh)
      → env.list_open_pulls (cached_etag before) ≡ ok (listed pulls etag limit)
      → let items =
          sort_items etag_of later
            (map (refreshed_item env refreshed (cached_items before)) pulls) in
        Lists env before record {
          items = items;
          list_etag = etag;
          broker_etag = etag_of etag items;
          rate_limit = rate;
        }
  sorted-Lists env before pulls etag limit rate refreshed page =
      let item = refreshed_item env refreshed (cached_items before) in
      let order : PullListItem → PullListItem → Bool =
        λ a b. later b.pull.updated_at a.pull.updated_at in
      let items = sort_by order (map item pulls) in
      let inside : (it : PullListItem) → Contains it items → Contains it (map item pulls) =
        λ it. (Contains-sort_by order it (map item pulls)).0 in
      (
        All-Contains (IsAnnotated env) items λ it m.
            Contains-All (IsAnnotated env) (map item pulls)
              (All-map item (IsAnnotated env)
                (refreshed_item-IsAnnotated env refreshed (cached_items before)) pulls)
              (inside it m),
        refl,
        inr (
          pulls,
          limit,
          page,
          length-sort_by order (map item pulls) ∙ length-map item pulls,
          λ it m.
              subst (Contains it.pull) (map-pull_of env refreshed (cached_items before) pulls)
                (Contains-map pull_of it (map item pulls) (inside it m)),
          λ pull m. Contains-map pull_of (item pull) items (
              (Contains-sort_by order (item pull) (map item pulls)).1
                (Contains-map item pull pulls m)),
        ),
      )

  abbrev listed_cache :
      Environment
      → Option CacheState
      → List PullSummary
      → Text
      → Option RateLimitInfo
      → FactsRefresh
      → CacheState
  listed_cache env before pulls etag limit refreshed =
      let items =
        sort_items etag_of later (map (refreshed_item env refreshed (cached_items before)) pulls) in
      record {
        items = items;
        list_etag = etag;
        broker_etag = etag_of etag items;
        rate_limit = or_else limit (cached_limit before);
      }

  after_listed-refreshed :
      (env : Environment) (before : Option CacheState) (pulls : List PullSummary) (etag : Text)
      (limit : Option RateLimitInfo) (refreshed : FactsRefresh)
      → refresh_facts env
          (filter
            (λ pull. has_number (changed_numbers pulls (cached_items before)) pull.number)
            pulls)
          (filter
            (λ n. not (has_number (changed_numbers pulls (cached_items before)) n))
            (unsettled_numbers (cached_items before)))
        ≡ ok refreshed
      → after_listed etag_of later env before pulls etag limit
        ≡ cached (listed_cache env before pulls etag limit refreshed)
  after_listed-refreshed env before pulls etag limit refreshed e = rw (after_listed, e) refl

  after_listed-Lists :
      (env : Environment) (before : Option CacheState) (pulls : List PullSummary) (etag : Text)
      (limit : Option RateLimitInfo) (after : CacheState)
      → env.list_open_pulls (cached_etag before) ≡ ok (listed pulls etag limit)
      → after_listed etag_of later env before pulls etag limit ≡ cached after
      → Lists env before after
  after_listed-Lists env before pulls etag limit after page h =
      let changed = changed_numbers pulls (cached_items before) in
      let asked =
        refresh_facts env (filter (λ pull. has_number changed pull.number) pulls)
          (filter (λ n. not (has_number changed n)) (unsettled_numbers (cached_items before))) in
      elim (Result-cases asked) [
        | inl (thrown, e) ↦
            let same : after_listed etag_of later env before pulls etag limit ≡ failed thrown =
              rw (after_listed, e) refl in
            cc
        | inr (refreshed, e) ↦
            let same = after_listed-refreshed env before pulls etag limit refreshed e in
            subst (Lists env before) (cached_inj (sym same ∙ h)) (
              sorted-Lists env before pulls etag limit (or_else limit (cached_limit before))
                refreshed page)
      ]

  abbrev paged : Environment → Option CacheState → Page → Outcome
  paged env before (not_modified limit) = after_not_modified etag_of later env before limit
  paged env before (listed pulls etag limit) =
      after_listed etag_of later env before pulls etag limit

  poll-paged :
      (env : Environment) (before : Option CacheState) (done : Unit) (page : Page)
      → env.load ≡ ok done
      → env.list_open_pulls (cached_etag before) ≡ ok page
      → poll etag_of later env before ≡ paged env before page
  unfolding poll sweep_unsettled_checks
  poll-paged env before done (not_modified limit) e f = rw (poll, e, f) refl
  poll-paged env before done (listed pulls etag limit) e f = rw (poll, e, f) refl

  paged-Lists :
      (env : Environment) (before : Option CacheState) (after : CacheState) (page : Page)
      → env.list_open_pulls (cached_etag before) ≡ ok page
      → paged env before page ≡ cached after
      → Lists env before after
  paged-Lists env before after (not_modified limit) f h =
      after_not_modified-Lists env before limit after f h
  paged-Lists env before after (listed pulls etag limit) f h =
      after_listed-Lists env before pulls etag limit after f h

  -- A tick that sets the cache, under any answers: every item has the author, the approvability and
  -- the reviewers of this tick, and the tag served is made of the list's tag and these items.
  -- Either GitHub said that the list for the cached tag is unchanged, and the pulls, their order and
  -- their counts and compare keys are those of the cache; or it gave a list, and the items are one
  -- for each of its pulls, with the list's tag.
  pub poll-Lists :
      (env : Environment) (before : Option CacheState) (after : CacheState)
      → poll etag_of later env before ≡ cached after
      → Lists env before after
  unfolding poll
  poll-Lists env before after h = elim (Result-cases env.load) [
    | inl (thrown, e) ↦
        let same : poll etag_of later env before ≡ failed thrown = rw (poll, e) refl in cc
    | inr (done, e) ↦ elim (Result-cases (env.list_open_pulls (cached_etag before))) [
      | inl (thrown, f) ↦
          let same : poll etag_of later env before ≡ failed thrown = rw (poll, e, f) refl in cc
      | inr (page, f) ↦
          paged-Lists env before after page f
            (let same = poll-paged env before done page e f in sym same ∙ h)
    ]
  ]
