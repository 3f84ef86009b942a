-- ===== src/Retention/Blobs.antt =====
-- pruneBlobs and deleteBlobs: the blobs in use, and what a reclamation leaves.
use revu.Prelude.{
  ℕ, zero, suc, ◌<◌, ◌≡◌, refl, sym, subst, ap, Bool, true, false, not, inl, inr, ◌⊎◌, ◌↔◌, Option,
  none, some, Option-cases, List, [], ◌∷◌, map, filter, Contains, Contains-map, Text, arith,
}
use revu.Prelude.Results.{ok, >>=-eq-ok}
use revu.Retention.{
  StoredSide, named, absent, malformed, StoredSides, ImmutableRow, BlobRow, index_of, Database, has,
  add_key, set_of, add_side, add_sides, add_entries, add_blob_shas, referenced_from,
  referenced_blob_shas, Deletion, delete_blobs, SyncGate, Swept, skipped, withheld, deleted,
  prune_blobs,
}
use revu.Retention.Sets.{
  Contains-filter, has_iff, Contains-add_key, Contains-set_of, delete_loop-rows,
}
use revu.Retention.Sweep.{ok_inj}

abbrev pub SidesName : Text → StoredSides → Type 0
SidesName sha s = (s.base ≡ named sha) ⊎ (s.head ≡ named sha)

abbrev pub EntriesName : Text → List (Option StoredSides) → Type 0
EntriesName sha [] = ⊥
EntriesName sha (none ∷ es) = EntriesName sha es
EntriesName sha (some s ∷ es) = SidesName sha s ⊎ EntriesName sha es

abbrev pub IndexNames : Text → Option (List (Option StoredSides)) → Type 0
IndexNames sha none = ⊥
IndexNames sha (some es) = EntriesName sha es

-- A cached half names the blob, on either side of some path.
abbrev pub IsReferenced : Text → List ImmutableRow → Type 0
IsReferenced sha [] = ⊥
IsReferenced sha (r ∷ rs) = IndexNames sha (index_of r) ⊎ IsReferenced sha rs

add_side_lem :
    (s : StoredSide) (into out : List Text) (sha : Text)
    → add_side s into ≡ some out
    → Contains sha out ↔ (Contains sha into ⊎ (s ≡ named sha))
add_side_lem absent into out sha h = let same : into ≡ out = cc in rw (sym same) (ground arith)
add_side_lem malformed into out sha h = absurd (ground (arith, h))
add_side_lem (named []) into out sha h = absurd (ground (arith, h))
add_side_lem (named (c ∷ cs)) into out sha h =
    let same : add_key (c ∷ cs) into ≡ out = cc in
    let one = Contains-add_key sha (c ∷ cs) into in rw (sym same) (ground arith)

add_sides_lem :
    (s : StoredSides) (into out : List Text) (sha : Text)
    → add_sides s into ≡ some out
    → Contains sha out ↔ (Contains sha into ⊎ SidesName sha s)
add_sides_lem s into out sha h = elim (Option-cases (add_side s.base into)) [
  | inl e ↦ absurd (ground (arith, h))
  | inr (mid, e) ↦
      let base = add_side_lem s.base into mid sha e in
      let head = add_side_lem s.head mid out sha (ground (arith, h)) in ground arith
]

add_entries_lem :
    (es : List (Option StoredSides)) (into out : List Text) (sha : Text)
    → add_entries es into ≡ some out
    → Contains sha out ↔ (Contains sha into ⊎ EntriesName sha es)
unfolding add_entries
add_entries_lem [] into out sha h = let same : into ≡ out = cc in rw (sym same) (ground arith)
add_entries_lem (none ∷ es) into out sha h = absurd (ground (arith, h))
add_entries_lem (some s ∷ es) into out sha h = elim (Option-cases (add_sides s into)) [
  | inl e ↦ absurd (ground (arith, h))
  | inr (mid, e) ↦
      let first = add_sides_lem s into mid sha e in
      let rest = add_entries_lem es mid out sha (ground (arith, h)) in ground arith
]

add_blob_shas_lem :
    (index : Option (List (Option StoredSides))) (into out : List Text) (sha : Text)
    → add_blob_shas index into ≡ some out
    → Contains sha out ↔ (Contains sha into ⊎ IndexNames sha index)
add_blob_shas_lem none into out sha h = absurd (ground (arith, h))
add_blob_shas_lem (some es) into out sha h = add_entries_lem es into out sha h

referenced_from_lem :
    (rs : List ImmutableRow) (into out : List Text) (sha : Text)
    → referenced_from rs into ≡ ok out
    → Contains sha out ↔ (Contains sha into ⊎ IsReferenced sha rs)
unfolding referenced_from
referenced_from_lem [] into out sha h = let same : into ≡ out = cc in rw (sym same) (ground arith)
referenced_from_lem (r ∷ rs) into out sha h =
    elim (Option-cases (add_blob_shas (index_of r) into)) [
      | inl e ↦ absurd (ground (arith, h))
      | inr (mid, e) ↦
          let first = add_blob_shas_lem (index_of r) into mid sha e in
          let rest = referenced_from_lem rs mid out sha (ground (arith, h)) in ground arith
    ]

referenced_blob_shas_lem :
    (db : Database) (shas : List Text) (sha : Text)
    → referenced_blob_shas db ≡ ok shas
    → Contains sha shas ↔ IsReferenced sha db.immutables
unfolding referenced_blob_shas
referenced_blob_shas_lem db shas sha h =
    let all = referenced_from_lem db.immutables [] shas sha h in ground arith

-- What a reclamation of blobs that ran has done.
abbrev pub ReclaimsBlobs : Database → Database → Type 0
ReclaimsBlobs db db' =
    (db'.immutables ≡ db.immutables)
    × (db'.snapshots ≡ db.snapshots)
    × (db'.local_snapshots ≡ db.local_snapshots)
    × ((b : BlobRow)
        → Contains b db'.blobs ↔ (Contains b db.blobs × IsReferenced b.sha db.immutables))

abbrev Leaves : Database → List Text → Database → Type 0
Leaves db shas db' =
    (db'.immutables ≡ db.immutables)
    × (db'.snapshots ≡ db.snapshots)
    × (db'.local_snapshots ≡ db.local_snapshots)
    × ((b : BlobRow)
        → Contains b db'.blobs
          ↔ (Contains b db.blobs × (IsReferenced b.sha db.immutables ⊎ ¬ Contains b.sha shas)))

-- Whatever keys it is given, a deletion takes the blobs with one of them that no half names.
delete_blobs_lem :
    (db db' : Database) (shas : List Text) (d : Deletion)
    → delete_blobs db shas ≡ ok (d, db')
    → Leaves db shas db'
unfolding delete_blobs
delete_blobs_lem db db' shas d h =
    let (referenced, read, out) = >>=-eq-ok (referenced_blob_shas db) _ h in
    subst (Leaves db shas) (ap (λ x. x.1) (ok_inj out)) (
      refl,
      refl,
      refl,
      λ b.
          let left = delete_loop-rows (λ b. b.sha) referenced b (set_of shas []) db.blobs [] in
          let needed = referenced_blob_shas_lem db referenced b.sha read in
          let asked = Contains-set_of b.sha shas [] in ground arith,
    )

module _ (sorted : List Text → List Text) where
  abbrev unreferenced : Database → List Text → List Text
  unreferenced db shas =
      filter (λ sha. not (has sha (set_of (sorted shas) []))) (sorted (map (λ b. b.sha) db.blobs))

  proposed_only :
      ((x : Text) (xs : List Text) → Contains x (sorted xs) ↔ Contains x xs)
      → (db : Database) (shas : List Text) → referenced_blob_shas db ≡ ok shas
      → (b : BlobRow) → Contains b db.blobs
      → IsReferenced b.sha db.immutables ⊎ ¬ Contains b.sha (unreferenced db shas)
      → IsReferenced b.sha db.immutables
  proposed_only same db shas read b m (inl l) = l
  proposed_only same db shas read b m (inr out) =
      let stored = Contains-map (λ b. b.sha) b db.blobs m in
      let there = (same b.sha (map (λ b. b.sha) db.blobs)).1 stored in
      let known = same b.sha shas in
      let needed = referenced_blob_shas_lem db shas b.sha read in
      let in_set = Contains-set_of b.sha (sorted shas) [] in
      let tested = has_iff b.sha (set_of (sorted shas) []) in
      let kept =
        Contains-filter (λ sha. not (has sha (set_of (sorted shas) []))) b.sha
          (sorted (map (λ b. b.sha) db.blobs)) in
      ground arith

  abbrev Outcome : ℕ → Bool → Database → Database → Swept → Type 0
  Outcome n reclaim db db' s =
      ((0 < n) × (s ≡ skipped n) × (db' ≡ db))
      ⊎ ((n ≡ 0) × (reclaim ≡ false) × (s ≡ withheld) × (db' ≡ db))
      ⊎ ((n ≡ 0) × (reclaim ≡ true) × ((d : Deletion) × (s ≡ deleted d)) × ReclaimsBlobs db db')

  sweep-Outcome :
      ((x : Text) (xs : List Text) → Contains x (sorted xs) ↔ Contains x xs)
      → (n : ℕ) (reclaim : Bool) (db db' : Database) (s : Swept)
      → prune_blobs sorted db record { in_flight = n } reclaim ≡ ok (s, db')
      → Outcome n reclaim db db' s
  unfolding prune_blobs
  sweep-Outcome same zero false db db' s h =
      let pair = ok_inj h in
      inr (inl (refl, refl, sym (ap (λ x. x.0) pair), sym (ap (λ x. x.1) pair)))
  sweep-Outcome same zero true db db' s h =
      let (shas, read, rest) = >>=-eq-ok (referenced_blob_shas db) _ h in
      let ((d, mid), out, last) = >>=-eq-ok (delete_blobs db (unreferenced db shas)) _ rest in
      let (a, b, c, rows) = delete_blobs_lem db mid (unreferenced db shas) d out in
      let pair = ok_inj last in
      inr (
        inr (
          refl,
          refl,
          (d, sym (ap (λ x. x.0) pair)),
          subst (ReclaimsBlobs db) (ap (λ x. x.1) pair) (
            a,
            b,
            c,
            λ r. (
              λ m.
                  let (there, why) = (rows r).0 m in
                  (there, proposed_only same db shas read r there why),
              λ (m, l). (rows r).1 (m, inl l),
            ),
          ),
        ))
  sweep-Outcome same (suc n) reclaim db db' s h =
      let pair = ok_inj h in inl (omega arith, sym (ap (λ x. x.0) pair), sym (ap (λ x. x.1) pair))

  -- A reclamation of blobs that returns stood aside for the syncs in flight, or was withheld by the
  -- policy, and changed nothing; or it ran with no sync in flight and the policy on: then of the
  -- blobs exactly those that a cached half names on a side of some path are left, and no
  -- other table has changed.
  pub prune_blobs_lem :
      ((x : Text) (xs : List Text) → Contains x (sorted xs) ↔ Contains x xs)
      → (gate : SyncGate) (reclaim : Bool) (db db' : Database) (s : Swept)
      → prune_blobs sorted db gate reclaim ≡ ok (s, db')
      → ((0 < gate.in_flight) × (s ≡ skipped gate.in_flight) × (db' ≡ db))
        ⊎ ((gate.in_flight ≡ 0) × (reclaim ≡ false) × (s ≡ withheld) × (db' ≡ db))
        ⊎ ((gate.in_flight ≡ 0)
            × (reclaim ≡ true)
            × ((d : Deletion) × (s ≡ deleted d))
            × ReclaimsBlobs db db')
  prune_blobs_lem same gate = sweep-Outcome same gate.in_flight
