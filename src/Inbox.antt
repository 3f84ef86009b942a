-- ===== src/Inbox.antt =====
-- Which rows the inbox shows and in which sections (packages/app/src/lib/inbox-sections.ts, with
-- partitionInbox and rowIdentity of packages/app/src/lib/local-reviews.ts). A pull request has the
-- fields that these read; a Map is a function on numbers. `digits` writes a number in decimal,
-- `is_letter` is the class of letters of Identity. The titles of the sections are not modelled.
pub mod Shown
mod Tests
use revu.Prelude.{
  ℕ, Bool, true, false, not, ◌&&◌, ◌||◌, Option, none, some, List, [], ◌∷◌, ◌++◌, map, any, filter,
  if◌then◌else◌, Text, codes, text_eq, is_empty, to_lower, ltb, ◌==◌,
}
use revu.Api.{ReviewDraft}
use revu.Identity.{GhUser, CommentIdentity, human, github, bot, parse_comment_identity}
use revu.LocalArchive.{PullState, GhRef, is_open}
use revu.PollLoop.{BrokerPullMeta}
use revu.Retention.Refs.{is_local_review_id}
use revu.RefNames.{includes}

pub record PullSummary : Type 0 where
  pub number : ℕ
  pub state : PullState
  pub title : Text
  pub body : Option Text
  pub user : GhUser
  pub head : GhRef
  pub base : GhRef

pub record PullListItem : Type 0 where
  pub pull : PullSummary
  pub broker : BrokerPullMeta

abbrev pub is_local_review_item : PullListItem → Bool
is_local_review_item item = is_local_review_id item.pull.number

pub record InboxPartition : Type 0 where
  pub local : List PullListItem
  pub github : List PullListItem

pub partition_inbox : List PullListItem → InboxPartition
partition_inbox [] = record { local = []; github = [] }
partition_inbox (item ∷ items) =
    let rest = partition_inbox items in
    if is_local_review_item item
    then record rest { local = item ∷ rest.local }
    else record rest { github = item ∷ rest.github }

-- A slot shows the branches of a local review, and the text of another.
pub data RowIdentity : Type 0 where
  local_pair : Text → Text → RowIdentity
  github_text : Text → RowIdentity

abbrev number_token : RowIdentity → Text
number_token (local_pair head base) = []
number_token (github_text text) = text

abbrev or_blank : Option Text → Text
or_blank none = []
or_blank (some body) = body

abbrev author_name : GhUser → CommentIdentity → Text
author_name user (human name role) = name
author_name user (github u) = user.login
author_name user (bot u) = user.login

pub data SectionId : Type 0 where
  local_reviews waiting review drafts everything : SectionId

pub record InboxRow : Type 0 where
  pub item : PullListItem
  pub draft : Option ReviewDraft

pub record Section : Type 0 where
  pub id : SectionId
  pub rows : List InboxRow

pub record InboxSectionsInput : Type 0 where
  pub items : List PullListItem
  pub needle : Text
  pub human_id : Text
  pub bot_login : Text
  pub draft_by_number : ℕ → Option ReviewDraft
  pub has_local_reviews : Bool

pub shows_in_inbox : PullListItem → Bool
shows_in_inbox item = is_open item.pull.state || is_local_review_item item

abbrev pub is_author : Text → Option Text → Bool
is_author human_id none = false
is_author human_id (some author) = text_eq author human_id

abbrev pub is_present {ℓ} : {A : Type ℓ} → Option A → Bool
is_present none = false
is_present (some draft) = true

abbrev pub to_row : InboxSectionsInput → PullListItem → InboxRow
to_row i it = record { item = it; draft = i.draft_by_number it.pull.number }

abbrev pub is_waiting : InboxSectionsInput → PullListItem → Bool
is_waiting i it =
    is_author i.human_id it.broker.author_human_id && ltb 0 it.broker.unresolved_threads

abbrev pub is_to_review : InboxSectionsInput → PullListItem → Bool
is_to_review i it =
    not (is_author i.human_id it.broker.author_human_id)
    && any (λ id. text_eq id i.human_id) it.broker.assigned_reviewer_human_ids

abbrev pub has_draft : InboxSectionsInput → PullListItem → Bool
has_draft i it = is_present (i.draft_by_number it.pull.number)

abbrev pub has_number : ℕ → PullListItem → Bool
has_number n it = it.pull.number == n

abbrev pub section_of : InboxSectionsInput → SectionId → List PullListItem → Section
section_of i id items = record { id = id; rows = map (to_row i) items }

abbrev pub pull_request_sections : InboxSectionsInput → List PullListItem → List Section
pull_request_sections i items =
    let waiting_on = filter (is_waiting i) items in
    let to_review = filter (is_to_review i) items in
    let with_draft = filter (has_draft i) items in
    let claimed : ℕ → Bool = λ n. any (has_number n) (waiting_on ++ to_review ++ with_draft) in
    section_of i waiting waiting_on
    ∷ section_of i review to_review
    ∷ section_of i drafts with_draft
    ∷ section_of i everything (filter (λ it. not (claimed it.pull.number)) items)
    ∷ []

module _ (digits : ℕ → Text) (is_letter : ℕ → Bool) where
  pub row_identity : PullListItem → RowIdentity
  row_identity item =
      if is_local_review_item item
      then local_pair item.pull.head.ref item.pull.base.ref
      else github_text (codes "#" ++ digits item.pull.number)

  pub haystack : PullListItem → Text → Text
  unfolding row_identity
  haystack item bot_login =
      let identity =
        (parse_comment_identity is_letter item.pull.user (or_blank item.pull.body)
          bot_login).identity in
      to_lower (
        item.pull.title
        ++ codes " "
        ++ number_token (row_identity item)
        ++ codes " "
        ++ author_name item.pull.user identity
        ++ codes " "
        ++ item.pull.head.ref
        ++ codes " "
        ++ item.pull.base.ref)

  pub matches_filter : PullListItem → Text → Text → Bool
  unfolding haystack includes
  matches_filter item needle bot_login =
      if is_empty needle then true else includes (haystack item bot_login) needle

  pub visible_rows : List PullListItem → Text → Text → List PullListItem
  unfolding matches_filter shows_in_inbox
  visible_rows items needle bot_login =
      filter (λ it. shows_in_inbox it && matches_filter it needle bot_login) items

  pub build_inbox_sections : InboxSectionsInput → List Section
  unfolding partition_inbox visible_rows
  build_inbox_sections i =
      let split = partition_inbox (visible_rows i.items i.needle i.bot_login) in
      let local_section = section_of i local_reviews split.local in
      let others = pull_request_sections i split.github in
      if not (is_empty split.local)
      then local_section ∷ others
      else if i.has_local_reviews
      then others ++ (local_section ∷ [])
      else others
