-- ===== src/Retention/Sweep.antt =====
-- pruneImmutables and deleteImmutables: the live keys, and what a sweep leaves in the store.
use revu.Prelude.{
  ℕ, zero, suc, ◌<◌, ◌≡◌, refl, sym, subst, ap, ◌∙◌, find, Bool, true, not, inl, inr, ◌⊎◌, ◌↔◌,
  Option, none, some, Option-cases, List, [], ◌∷◌, map, filter, Contains, Contains-map, Text, arith,
}
use revu.Prelude.Results.{Result, ok, >>=-eq-ok}
use revu.Retention.{
  Table, snapshots_table, local_snapshots_table, EnvelopeRow, ImmutableRow, Database, has, add_key,
  set_of, usable, collect_compare_keys, live_compare_keys, delete_immutables, Deletion, SyncGate,
  Swept, skipped, deleted, prune_immutables,
}
use revu.Retention.Sets.{
  Contains-filter, has_iff, Contains-add_key, Contains-set_of, delete_loop-rows, delete_loop-find,
}

-- A row of a table of snapshots names the key.
abbrev pub Names : Text → List EnvelopeRow → Type 0
Names k [] = ⊥
Names k (r ∷ rs) = (r.compare_key ≡ some k) ⊎ Names k rs

abbrev pub IsLive : Database → Text → Type 0
IsLive db k = Names k db.snapshots ⊎ Names k db.local_snapshots

usable-eq-some : (o : Option Text) (k : Text) → usable o ≡ some k → o ≡ some k
usable-eq-some none k e = cc
usable-eq-some (some []) k e = cc
usable-eq-some (some (c ∷ s)) k e = e

collect_compare_keys_next :
    (t : Table) (r : EnvelopeRow) (rs : List EnvelopeRow) (into keys : List Text)
    → collect_compare_keys t (r ∷ rs) into ≡ ok keys
    → (j : Text) × (r.compare_key ≡ some j) × (collect_compare_keys t rs (add_key j into) ≡ ok keys)
unfolding collect_compare_keys
collect_compare_keys_next t r rs into keys h = elim (Option-cases (usable r.compare_key)) [
  | inl e ↦ absurd (ground (arith, h))
  | inr (j, e) ↦ (j, usable-eq-some r.compare_key j e, ground (arith, h))
]

collect_compare_keys_lem :
    (t : Table) (rs : List EnvelopeRow) (into keys : List Text)
    → collect_compare_keys t rs into ≡ ok keys
    → (k : Text) → Contains k keys ↔ (Contains k into ⊎ Names k rs)
unfolding collect_compare_keys
collect_compare_keys_lem t [] into keys h k =
    let same : into ≡ keys = cc in rw (sym same) (ground arith)
collect_compare_keys_lem t (r ∷ rs) into keys h k =
    let (j, at, next) = collect_compare_keys_next t r rs into keys h in
    let rest = collect_compare_keys_lem t rs (add_key j into) keys next k in
    let one = Contains-add_key k j into in ground arith

pub live_compare_keys_lem :
    (db : Database) (keys : List Text)
    → live_compare_keys db ≡ ok keys
    → (k : Text) → Contains k keys ↔ IsLive db k
unfolding live_compare_keys
live_compare_keys_lem db keys h k =
    let (into, first, second) =
      >>=-eq-ok (collect_compare_keys snapshots_table db.snapshots [])
        (collect_compare_keys local_snapshots_table db.local_snapshots) h in
    let pulls = collect_compare_keys_lem snapshots_table db.snapshots [] into first k in
    let locals =
      collect_compare_keys_lem local_snapshots_table db.local_snapshots into keys second k in
    ground arith

pub ok_inj : {A E : Type 0} {a b : A} (e : ◌≡◌ {A = Result E A} (ok a) (ok b)) → a ≡ b
ok_inj e = cc

-- Whatever keys it is given, a deletion takes the rows with one of them that no snapshot names.
pub delete_immutables_lem :
    (db db' : Database) (keys : List Text) (d : Deletion)
    → delete_immutables db keys ≡ ok (d, db')
    → (db'.snapshots ≡ db.snapshots)
      × (db'.local_snapshots ≡ db.local_snapshots)
      × (db'.blobs ≡ db.blobs)
      × ((r : ImmutableRow)
          → Contains r db'.immutables ↔ (
              Contains r db.immutables × (IsLive db r.compare_key ⊎ ¬ Contains r.compare_key keys)))
unfolding delete_immutables
delete_immutables_lem db db' keys d h =
    let (live, read, out) = >>=-eq-ok (live_compare_keys db) _ h in
    let same = ap (λ x. x.1) (ok_inj out) in
    (
      ap (λ x. x.snapshots) (sym same),
      ap (λ x. x.local_snapshots) (sym same),
      ap (λ x. x.blobs) (sym same),
      λ r.
          subst
            (λ x. Contains r x.immutables ↔ (
              Contains r db.immutables × (IsLive db r.compare_key ⊎ ¬ Contains r.compare_key keys)))
            same
            (let left =
                delete_loop-rows (λ r. r.compare_key) live r (set_of keys []) db.immutables [] in
              let needed = live_compare_keys_lem db live read r.compare_key in
              let asked = Contains-set_of r.compare_key keys [] in ground arith),
    )

-- Who looks for the half of a key that a snapshot names finds what was there before.
pub delete_immutables-find :
    (db db' : Database) (keys : List Text) (d : Deletion) (p : ImmutableRow → Bool)
    → delete_immutables db keys ≡ ok (d, db')
    → ((r : ImmutableRow) → p r ≡ true → IsLive db r.compare_key)
    → find p db'.immutables ≡ find p db.immutables
unfolding delete_immutables
delete_immutables-find db db' keys d p h wanted =
    let (live, read, out) = >>=-eq-ok (live_compare_keys db) _ h in
    subst (λ x. find p x.immutables ≡ find p db.immutables) (ap (λ x. x.1) (ok_inj out))
      (delete_loop-find (λ r. r.compare_key) live p
        (λ r at. (live_compare_keys_lem db live read r.compare_key).1 (wanted r at))
        (set_of keys []) db.immutables [])

pub Contains-Names :
    (rows : List EnvelopeRow) (r : EnvelopeRow) (k : Text)
    → Contains r rows
    → r.compare_key ≡ some k
    → Names k rows
Contains-Names [] r k m named = absurd m
Contains-Names (y ∷ rows) r k (inl e) named = inl (ap (λ x. x.compare_key) (sym e) ∙ named)
Contains-Names (y ∷ rows) r k (inr m) named = inr (Contains-Names rows r k m named)

-- What a sweep of the cached halves that ran has done.
abbrev pub Reclaims : Database → Database → Type 0
Reclaims db db' =
    (db'.snapshots ≡ db.snapshots)
    × (db'.local_snapshots ≡ db.local_snapshots)
    × (db'.blobs ≡ db.blobs)
    × ((r : ImmutableRow)
        → Contains r db'.immutables ↔ (Contains r db.immutables × IsLive db r.compare_key))

module _ (sorted : List Text → List Text) where
  abbrev pub unneeded : Database → List Text → List Text
  unneeded db keys =
      filter (λ k. not (has k (set_of (sorted keys) [])))
        (sorted (map (λ r. r.compare_key) db.immutables))

  proposed_only :
      ((x : Text) (xs : List Text) → Contains x (sorted xs) ↔ Contains x xs)
      → (db : Database) (keys : List Text) → live_compare_keys db ≡ ok keys
      → (r : ImmutableRow) → Contains r db.immutables
      → IsLive db r.compare_key ⊎ ¬ Contains r.compare_key (unneeded db keys)
      → IsLive db r.compare_key
  proposed_only same db keys read r m (inl l) = l
  proposed_only same db keys read r m (inr out) =
      let k = r.compare_key in
      let stored = Contains-map (λ r. r.compare_key) r db.immutables m in
      let there = (same k (map (λ r. r.compare_key) db.immutables)).1 stored in
      let known = same k keys in
      let live = live_compare_keys_lem db keys read k in
      let in_set = Contains-set_of k (sorted keys) [] in
      let tested = has_iff k (set_of (sorted keys) []) in
      let kept =
        Contains-filter (λ k. not (has k (set_of (sorted keys) []))) k
          (sorted (map (λ r. r.compare_key) db.immutables)) in
      ground arith

  sweep_outcome :
      ((x : Text) (xs : List Text) → Contains x (sorted xs) ↔ Contains x xs)
      → (n : ℕ) (db db' : Database) (s : Swept)
      → prune_immutables sorted db record { in_flight = n } ≡ ok (s, db')
      → ((0 < n) × (s ≡ skipped n) × (db' ≡ db))
        ⊎ ((n ≡ 0) × ((d : Deletion) × (s ≡ deleted d)) × Reclaims db db')
  unfolding prune_immutables
  sweep_outcome same zero db db' s h =
      let (keys, read, rest) = >>=-eq-ok (live_compare_keys db) _ h in
      let ((d, mid), out, last) = >>=-eq-ok (delete_immutables db (unneeded db keys)) _ rest in
      let (a, b, c, rows) = delete_immutables_lem db mid (unneeded db keys) d out in
      let pair = ok_inj last in
      inr (
        refl,
        (d, sym (ap (λ x. x.0) pair)),
        subst (Reclaims db) (ap (λ x. x.1) pair) (
          a,
          b,
          c,
          λ r. (
            λ m.
                let (there, why) = (rows r).0 m in
                (there, proposed_only same db keys read r there why),
            λ (m, l). (rows r).1 (m, inl l),
          ),
        ),
      )
  sweep_outcome same (suc n) db db' s h =
      let pair = ok_inj h in inl (omega arith, sym (ap (λ x. x.0) pair), sym (ap (λ x. x.1) pair))

  -- A sweep of the cached halves that returns either stood aside for the syncs in flight and changed
  -- nothing, or ran with none in flight: then of the halves exactly those that a snapshot of
  -- either table names are left, and no other table has changed.
  pub prune_immutables_lem :
      ((x : Text) (xs : List Text) → Contains x (sorted xs) ↔ Contains x xs)
      → (gate : SyncGate) (db db' : Database) (s : Swept)
      → prune_immutables sorted db gate ≡ ok (s, db')
      → ((0 < gate.in_flight) × (s ≡ skipped gate.in_flight) × (db' ≡ db))
        ⊎ ((gate.in_flight ≡ 0) × ((d : Deletion) × (s ≡ deleted d)) × Reclaims db db')
  prune_immutables_lem same gate = sweep_outcome same gate.in_flight

  deletes_at :
      (n : ℕ) (db db' : Database) (s : Swept)
      → prune_immutables sorted db record { in_flight = n } ≡ ok (s, db')
      → (db' ≡ db)
        ⊎ ((keys : List Text) × (d : Deletion) × (delete_immutables db keys ≡ ok (d, db')))
  unfolding prune_immutables
  deletes_at zero db db' s h =
      let (keys, read, rest) = >>=-eq-ok (live_compare_keys db) _ h in
      let ((d, mid), out, last) = >>=-eq-ok (delete_immutables db (unneeded db keys)) _ rest in
      inr (
        unneeded db keys,
        d,
        subst (λ x. delete_immutables db (unneeded db keys) ≡ ok (d, x))
            (ap (λ x. x.1) (ok_inj last)) out,
      )
  deletes_at (suc n) db db' s h = inl (sym (ap (λ x. x.1) (ok_inj h)))

  -- A sweep changes the store by one deletion or not at all.
  pub prune_immutables-delete_immutables :
      (gate : SyncGate) (db db' : Database) (s : Swept)
      → prune_immutables sorted db gate ≡ ok (s, db')
      → (db' ≡ db)
        ⊎ ((keys : List Text) × (d : Deletion) × (delete_immutables db keys ≡ ok (d, db')))
  prune_immutables-delete_immutables gate = deletes_at gate.in_flight
