-- ===== src/Drafts/Edit.antt =====
-- What an edit of the comments of a draft changes, and what it leaves.
use revu.Prelude.{
  ℕ, Option, ap, ◌≡◌, ◌≢◌, refl, sym, ap₂, subst, arith, false, Bool-cases, inl, inr, ◌⊎◌, none,
  some, Option-cases, List, [], ◌∷◌, ◌++◌, map, find, Contains, Text, text_eq, text_eq_iff,
  if◌then◌else◌,
}
use revu.Api.{ReviewDraft, PendingComment}
use revu.ReconcilePlan.{DraftHead}
use revu.Drafts.{Written, Client, mutate, ensure_draft, upsert_comment}

abbrev pub keys_of : List PendingComment → List Text
keys_of cs = map (λ c. c.key) cs

-- The comments are the ones with the key replaced, or the new one added at the end.
abbrev pub IsDistinct : List Text → Type 0
IsDistinct [] = Unit
IsDistinct (k ∷ ks) = (¬ Contains k ks) × IsDistinct ks

abbrev replaced : PendingComment → PendingComment → Text → PendingComment → PendingComment
replaced c existing now x =
    if text_eq x.key c.key
    then record c { created_at = existing.created_at; updated_at = now }
    else x

keys-replaced :
    (c existing : PendingComment) (now : Text) (cs : List PendingComment)
    → keys_of (map (replaced c existing now) cs) ≡ keys_of cs
keys-replaced c existing now [] = refl
keys-replaced c existing now (x ∷ cs) = elim (Bool-cases (text_eq x.key c.key)) [
  | inl e ↦ rw e (ap₂ ◌∷◌ (sym ((text_eq_iff x.key c.key).0 e)) (keys-replaced c existing now cs))
  | inr e ↦ rw e (ap₂ ◌∷◌ refl (keys-replaced c existing now cs))
]

kept-replaced :
    (c existing x : PendingComment) (now : Text) (cs : List PendingComment)
    → Contains x cs
    → text_eq x.key c.key ≡ false
    → Contains x (map (replaced c existing now) cs)
kept-replaced c existing x now [] m other = absurd m
kept-replaced c existing x now (y ∷ cs) (inl same) other =
    let at : text_eq y.key c.key ≡ false = subst (λ y. text_eq y.key c.key ≡ false) same other in
    rw at (inl same)
kept-replaced c existing x now (y ∷ cs) (inr m) other =
    inr (kept-replaced c existing x now cs m other)

-- The key is not that of a comment which the loop has not found.
find-none :
    (key : Text) (cs : List PendingComment)
    → find (λ x. text_eq x.key key) cs ≡ none
    → ¬ Contains key (keys_of cs)
find-none key [] h m = m
find-none key (x ∷ cs) h m = elim (Bool-cases (text_eq x.key key)) [
  | inl e ↦ absurd (ground (arith, h))
  | inr e ↦ elim m [
    | inl same ↦ absurd (ground (arith, (text_eq_iff x.key key).1 (sym same)))
    | inr rest ↦ find-none key cs (ground (arith, h)) rest
  ]
]

Contains-snoc :
    (k j : Text) (ks : List Text) → Contains k (ks ++ (j ∷ [])) → Contains k ks ⊎ (k ≡ j)
Contains-snoc k j [] (inl e) = inr e
Contains-snoc k j [] (inr m) = absurd m
Contains-snoc k j (i ∷ ks) (inl e) = inl (inl e)
Contains-snoc k j (i ∷ ks) (inr m) = let rest = Contains-snoc k j ks m in ground arith

snoc-IsDistinct :
    (k : Text) (ks : List Text) → ¬ Contains k ks → IsDistinct ks → IsDistinct (ks ++ (k ∷ []))
snoc-IsDistinct k [] new h = (λ m. m, tt)
snoc-IsDistinct k (j ∷ ks) new (first, h) = (
  λ m. elim (Contains-snoc j k ks m) [ inl at ↦ first at | inr same ↦ new (inl (sym same)) ],
  snoc-IsDistinct k ks (λ m. new (inr m)) h,
)

keys-snoc :
    (c : PendingComment) (cs : List PendingComment)
    → keys_of (cs ++ (c ∷ [])) ≡ keys_of cs ++ (c.key ∷ [])
keys-snoc c [] = refl
keys-snoc c (x ∷ cs) = ap₂ ◌∷◌ refl (keys-snoc c cs)

kept-snoc :
    (c x : PendingComment) (cs : List PendingComment) → Contains x cs → Contains x (cs ++ (c ∷ []))
kept-snoc c x [] m = absurd m
kept-snoc c x (y ∷ cs) (inl e) = inl e
kept-snoc c x (y ∷ cs) (inr m) = inr (kept-snoc c x cs m)

upsert_comment-new :
    (c : PendingComment) (now : Text) (d : ReviewDraft)
    → find (λ x. text_eq x.key c.key) d.comments ≡ none
    → (upsert_comment c now d).comments ≡ d.comments ++ (c ∷ [])
unfolding upsert_comment
upsert_comment-new c now d e = rw (e, upsert_comment) refl

upsert_comment-old :
    (c existing : PendingComment) (now : Text) (d : ReviewDraft)
    → find (λ x. text_eq x.key c.key) d.comments ≡ some existing
    → (upsert_comment c now d).comments ≡ map (replaced c existing now) d.comments
unfolding upsert_comment
upsert_comment-old c existing now d e = rw (e, upsert_comment) refl

-- The keys of a draft's comments that differ from each other still do after a comment has been
-- inserted or replaced, and every comment with another key is still there.
pub upsert_comment_lem :
    (c : PendingComment) (now : Text) (d : ReviewDraft)
    → IsDistinct (keys_of d.comments)
    → IsDistinct (keys_of (upsert_comment c now d).comments)
      × ((x : PendingComment)
          → Contains x d.comments
          → x.key ≢ c.key
          → Contains x (upsert_comment c now d).comments)
upsert_comment_lem c now d h = elim (Option-cases (find (λ x. text_eq x.key c.key) d.comments)) [
  | inl e ↦
      let at = sym (upsert_comment-new c now d e) in
      (
        subst (λ cs. IsDistinct (keys_of cs)) at
            (subst IsDistinct (sym (keys-snoc c d.comments))
              (snoc-IsDistinct c.key (keys_of d.comments) (find-none c.key d.comments e) h)),
        λ x m other. subst (Contains x) at (kept-snoc c x d.comments m),
      )
  | inr (existing, e) ↦
      let at = sym (upsert_comment-old c existing now d e) in
      (
        subst (λ cs. IsDistinct (keys_of cs)) at
            (subst IsDistinct (sym (keys-replaced c existing now d.comments)) h),
        λ x m other.
            let differs : text_eq x.key c.key ≡ false =
              ground (arith, text_eq_iff x.key c.key, other) in
            subst (Contains x) at (kept-replaced c existing x now d.comments m differs),
      )
]

-- The document that waits to be saved is the one that the reader sees.
abbrev pub IsCoherent : Client → Type 0
IsCoherent c = (w : Written) → c.persist.entry.pending ≡ some w → c.cached ≡ some w.draft

mutate_cached :
    (fn : ReviewDraft → ReviewDraft) (now : Text) (cached : Option ReviewDraft) (c : Client)
    → IsCoherent (record c { cached = cached })
    → IsCoherent (mutate fn now (record c { cached = cached }))
unfolding mutate
mutate_cached fn now none c h w e = h w e
mutate_cached fn now (some d) c h w e = ap (λ o. after_pending o) e
  where
    after_pending : Option Written → Option ReviewDraft
    after_pending none = none
    after_pending (some v) = some v.draft

ensure_cached :
    (human_id : Text) (n : ℕ) (head : DraftHead) (now : Text) (cached : Option ReviewDraft)
    (c : Client)
    → IsCoherent (record c { cached = cached })
    → IsCoherent (ensure_draft human_id n head now (record c { cached = cached })).1
      × ((ensure_draft human_id n head now (record c { cached = cached })).1.cached
          ≡ some (ensure_draft human_id n head now (record c { cached = cached })).0)
unfolding ensure_draft
ensure_cached human_id n head now none c h = (λ w e. absurd (ground (arith, h w e)), refl)
ensure_cached human_id n head now (some d) c h = (h, refl)

-- While the document that waits to be saved is the one that is cached, it still is after any edit
-- and after `ensureDraft`, and the draft that `ensureDraft` returns is the one that is cached.
pub edit-IsCoherent :
    (fn : ReviewDraft → ReviewDraft) (now : Text) (human_id : Text) (n : ℕ) (head : DraftHead)
    (c : Client)
    → IsCoherent c
    → IsCoherent (mutate fn now c)
      × IsCoherent (ensure_draft human_id n head now c).1
      × ((ensure_draft human_id n head now c).1.cached
          ≡ some (ensure_draft human_id n head now c).0)
edit-IsCoherent fn now human_id n head c h =
    let (kept, same) = ensure_cached human_id n head now c.cached c h in
    (mutate_cached fn now c.cached c h, kept, same)
