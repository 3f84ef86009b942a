-- ===== src/Inbox/Shown.antt =====
-- Every row that may be shown stands in a section.
use revu.Prelude.{
  ℕ, ◌≡◌, refl, ap, sym, ◌∙◌, Bool, true, false, not, ◌&&◌, ◌||◌, List, [], ◌∷◌, ◌++◌, map, any,
  filter, if◌then◌else◌, Bool-cases, inl, inr, Text, is_empty, arith, ==_iff,
}
use revu.Retention.Refs.{is_local_review_id}
use revu.Inbox.{
  PullListItem, Section, local_reviews, InboxSectionsInput, is_local_review_item, partition_inbox,
  visible_rows, build_inbox_sections, has_number, to_row, section_of, is_waiting, is_to_review,
  has_draft, pull_request_sections,
}

-- Some section has a row of that number.
abbrev pub shows : ℕ → List Section → Bool
shows n sections = any (λ s. any (λ r. has_number n r.item) s.rows) sections

kept : (b p r x : Bool) → (p ≡ true → true ≡ b) → r ≡ (b && x) → (p || r) ≡ (b && (p || x))
kept b true r x h e = let at : b ≡ true = sym (h refl) in rw at refl
kept b false r x h e = e

left_out : (b p r x : Bool) → (p ≡ true → false ≡ b) → r ≡ (b && x) → r ≡ (b && (p || x))
left_out b true r x h e =
    let at : b ≡ false = sym (h refl) in let out : r ≡ false = e ∙ ap (λ c. c && x) at in rw at out
left_out b false r x h e = e

nothing : (b : Bool) → false ≡ (b && false)
nothing b = ground arith

module _ {A : Type 0} (p keep : A → Bool) (b : Bool) where
  -- Where the items that the test wants are all kept or all left out.
  any-filter :
      ((x : A) → p x ≡ true → keep x ≡ b) → (xs : List A) → any p (filter keep xs) ≡ (b && any p xs)
  any-filter h [] = nothing b
  any-filter h (x ∷ xs) = elim (Bool-cases (keep x)) [
    | inl e ↦ rw e (kept b (p x) _ (any p xs) (λ q. sym e ∙ h x q) (any-filter h xs))
    | inr e ↦ rw e (left_out b (p x) _ (any p xs) (λ q. sym e ∙ h x q) (any-filter h xs))
  ]

same_number :
    (f : ℕ → Bool) (n : ℕ) (it : PullListItem) → has_number n it ≡ true → f it.pull.number ≡ f n
same_number f n it h = ap f ((==_iff it.pull.number n).0 h)

partition_inbox_lem :
    (items : List PullListItem)
    → ((partition_inbox items).local ≡ filter is_local_review_item items)
      × ((partition_inbox items).github ≡ filter (λ it. not (is_local_review_item it)) items)
unfolding partition_inbox
partition_inbox_lem [] = (refl, refl)
partition_inbox_lem (it ∷ items) =
    let (l, g) = partition_inbox_lem items in
    elim (Bool-cases (is_local_review_item it)) [
      | inl e ↦ rw e (ap (λ xs. it ∷ xs) l, g)
      | inr e ↦ rw e (l, ap (λ xs. it ∷ xs) g)
    ]

any-to_row :
    (i : InboxSectionsInput) (n : ℕ) (items : List PullListItem)
    → any (λ r. has_number n r.item) (map (to_row i) items) ≡ any (has_number n) items
any-to_row i n [] = refl
any-to_row i n (it ∷ items) = rw (any-to_row i n items) refl

any-append :
    (n : ℕ) (xs ys : List PullListItem)
    → any (has_number n) (xs ++ ys) ≡ (any (has_number n) xs || any (has_number n) ys)
any-append n [] ys = refl
any-append n (x ∷ xs) ys = rw (any-append n xs ys) (ground arith)

both : (p r x : Bool) → r ≡ (r && x) → (p || r) ≡ ((p || r) && (p || x))
both p r x h = ground (arith, h)

more : (p r x : Bool) → r ≡ (r && x) → r ≡ (r && (p || x))
more p r x h = ground (arith, h)

any-filter-any :
    (n : ℕ) (keep : PullListItem → Bool) (items : List PullListItem)
    → any (has_number n) (filter keep items)
      ≡ (any (has_number n) (filter keep items) && any (has_number n) items)
any-filter-any n keep [] = refl
any-filter-any n keep (it ∷ items) =
    let rest = any-filter-any n keep items in
    elim (Bool-cases (keep it)) [
      | inl e ↦ rw e (both (has_number n it) _ (any (has_number n) items) rest)
      | inr e ↦ rw e (more (has_number n it) _ (any (has_number n) items) rest)
    ]

-- What stands in the catch-all, from what stands in the others and in the list.
any-everything :
    (i : InboxSectionsInput) (n : ℕ) (items : List PullListItem)
    → let named = any (has_number n) (
        filter (is_waiting i) items
        ++ filter (is_to_review i) items
        ++ filter (has_draft i) items) in
      any (has_number n) (
        filter
          (λ it. not (
            any (has_number it.pull.number) (
              filter (is_waiting i) items
              ++ filter (is_to_review i) items
              ++ filter (has_draft i) items)))
          items)
      ≡ (not named && any (has_number n) items)
any-everything i n items =
    let claimed : ℕ → Bool = λ m. any (has_number m) (
      filter (is_waiting i) items ++ filter (is_to_review i) items ++ filter (has_draft i) items) in
    any-filter (has_number n) (λ it. not (claimed it.pull.number)) (not (claimed n))
      (same_number (λ m. not (claimed m)) n) items

covers :
    (w r d g : Bool)
    → w ≡ (w && g)
    → r ≡ (r && g)
    → d ≡ (d && g)
    → (w || (r || (d || ((not ((w || r) || d) && g) || false)))) ≡ g
covers w r d g hw hr hd = ground (arith, hw, hr, hd)

any_of_sections :
    (i : InboxSectionsInput) (n : ℕ) (items : List PullListItem)
    → shows n (pull_request_sections i items) ≡ any (has_number n) items
any_of_sections i n items =
    rw
      (
        any-to_row i n (filter (is_waiting i) items),
        any-to_row i n (filter (is_to_review i) items),
        any-to_row i n (filter (has_draft i) items),
        any-to_row i n (filter _ items),
        any-everything i n items,
        any-append n (filter (is_waiting i) items ++ filter (is_to_review i) items)
            (filter (has_draft i) items),
        any-append n (filter (is_waiting i) items) (filter (is_to_review i) items),
      )
      (covers (any (has_number n) (filter (is_waiting i) items))
        (any (has_number n) (filter (is_to_review i) items))
        (any (has_number n) (filter (has_draft i) items)) (any (has_number n) items)
        (any-filter-any n (is_waiting i) items) (any-filter-any n (is_to_review i) items)
        (any-filter-any n (has_draft i) items))

any-is_empty :
    (n : ℕ) (items : List PullListItem)
    → not (is_empty items) ≡ false
    → any (has_number n) items ≡ false
any-is_empty n [] h = refl
any-is_empty n (it ∷ items) h = cc

either : (a b : Bool) → ((a && b) || (not a && b)) ≡ b
either a b = ground arith

split_any :
    (n : ℕ) (items : List PullListItem)
    → (any (has_number n) (partition_inbox items).local
        || any (has_number n) (partition_inbox items).github)
      ≡ any (has_number n) items
split_any n items =
    let (l, g) = partition_inbox_lem items in
    let at =
      any-filter (has_number n) is_local_review_item (is_local_review_id n)
        (same_number is_local_review_id n) items in
    let off =
      any-filter (has_number n) (λ it. not (is_local_review_item it)) (not (is_local_review_id n))
        (same_number (λ m. not (is_local_review_id m)) n) items in
    rw (l, g, at, off) (either (is_local_review_id n) (any (has_number n) items))

last_shown :
    (n : ℕ) (section : Section) (others : List Section)
    → shows n (others ++ (section ∷ []))
      ≡ (any (λ r. has_number n r.item) section.rows || shows n others)
last_shown n section [] = refl
last_shown n section (s ∷ others) = rw (last_shown n section others) (ground arith)

-- Wherever the section stands, or is left out, when it has no such row.
arranged :
    (n : ℕ) (section : Section) (others : List Section) (has_rows first : Bool)
    → (has_rows ≡ false → any (λ r. has_number n r.item) section.rows ≡ false)
    → shows n
        (if has_rows then section ∷ others else if first then others ++ (section ∷ []) else others)
      ≡ (any (λ r. has_number n r.item) section.rows || shows n others)
arranged n section others true first h = refl
arranged n section others false true h = last_shown n section others
arranged n section others false false h = rw (h refl) refl

module _ (digits : ℕ → Text) (is_letter : ℕ → Bool) where
  -- The numbers of the rows that the sections show, whatever the arrangement of the sections, are
  -- those of the items that may be shown and match the filter: no such review is left out of every
  -- section and nothing else is shown.
  pub shows-build_inbox_sections :
      (i : InboxSectionsInput) (n : ℕ)
      → shows n (build_inbox_sections digits is_letter i)
        ≡ any (has_number n) (visible_rows digits is_letter i.items i.needle i.bot_login)
  unfolding build_inbox_sections
  shows-build_inbox_sections i n =
      let visible = visible_rows digits is_letter i.items i.needle i.bot_login in
      let split = partition_inbox visible in
      let local = any-to_row i n split.local in
      arranged n (section_of i local_reviews split.local) (pull_request_sections i split.github)
        (not (is_empty split.local)) i.has_local_reviews (λ e. local ∙ any-is_empty n split.local e)
      ∙ rw (local, any_of_sections i n split.github) (split_any n visible)
