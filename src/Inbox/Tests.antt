-- ===== src/Inbox/Tests.antt =====
-- An inbox with pull requests 3 and 7, of which 3 waits on the human, and two local reviews.
use revu.Prelude.{
  ℕ, ◌≡◌, refl, true, false, none, some, Bool, Text, codes, text_eq, List, [], ◌∷◌, any, map,
}
use revu.LocalArchive.{PullState}
use revu.Inbox.{
  PullListItem, Section, SectionId, InboxSectionsInput, partition_inbox, shows_in_inbox,
  matches_filter, visible_rows, build_inbox_sections, has_number,
}
use revu.Inbox.Shown.{shows, shows-build_inbox_sections}

abbrev item : ℕ → PullState → Text → ℕ → PullListItem
item n state author threads = record {
  pull = record {
    number = n;
    state = state;
    title = codes "t";
    body = none;
    user = record { login = codes "u" };
    head = record { ref = codes "h"; full_name = codes "o/n" };
    base = record { ref = codes "b"; full_name = codes "o/n" };
  };
  broker = record {
    author_human_id = some author;
    can_approve = true;
    unresolved_threads = threads;
    assigned_reviewer_human_ids = [];
    compare_key = [];
    commit_count = 0;
    checks = none;
  };
}

abbrev inbox : InboxSectionsInput
inbox = record {
  items =
      item 7 PullState.opened (codes "ben") 0
      ∷ item 3 PullState.opened (codes "ann") 1
      ∷ item 5 PullState.closed (codes "ann") 1
      ∷ item 1000000001 PullState.closed (codes "ann") 0
      ∷ [];
  needle = [];
  human_id = codes "ann";
  bot_login = [];
  draft_by_number = λ n. none;
  has_local_reviews = true;
}

abbrev one_unit : ℕ → Text
one_unit n = n ∷ []

abbrev no_letter : ℕ → Bool
no_letter c = false

abbrev numbers : Section → SectionId × List ℕ
numbers s = (s.id, map (λ r. r.item.pull.number) s.rows)

inbox_sections :
    map numbers (build_inbox_sections one_unit no_letter inbox)
    ≡ (SectionId.local_reviews, 1000000001 ∷ [])
      ∷ (SectionId.waiting, 3 ∷ [])
      ∷ (SectionId.review, [])
      ∷ (SectionId.drafts, [])
      ∷ (SectionId.everything, 7 ∷ [])
      ∷ []
unfolding build_inbox_sections partition_inbox visible_rows shows_in_inbox matches_filter text_eq
inbox_sections = refl

shows-build_inbox_sections_example :
    shows 3 (build_inbox_sections one_unit no_letter inbox)
    ≡ any (has_number 3) (visible_rows one_unit no_letter inbox.items [] [])
shows-build_inbox_sections_example = shows-build_inbox_sections one_unit no_letter inbox 3
