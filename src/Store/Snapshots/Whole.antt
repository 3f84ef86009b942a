-- ===== src/Store/Snapshots/Whole.antt =====
-- The snapshots and halves of a store that only its own operations have changed.
use revu.Prelude.{
  ℕ, ◌≡◌, refl, subst, ◌∙◌, Bool, inl, inr, Option, none, some, List, [], ◌∷◌, Contains-All,
  All-Contains, All-mono, find-Contains, Option-cases, filter, Text, All, if_ind,
}
use revu.Prelude.Results.{ok}
use revu.Retention.{
  Json, EnvelopeRow, ImmutableRow, SnapshotImmutable, StoredImmutable, BlobRow, Database,
  delete_immutables, Deletion,
}
use revu.Retention.Sets.{Contains-filter}
use revu.Retention.Sweep.{Contains-Names, IsLive, delete_immutables_lem}
use revu.Store.Tables.{
  at_key, number_keys, text_keys, select, upsert, IsStored, Contains-IsStored, select-IsStored,
  upsert-IsStored, upsert-keeps_IsStored, upsert-All,
}
use revu.Store.Snapshots.{
  Snapshot, SnapshotTable, of_pull, of_local, half_key, envelope_key, half_at, put_half,
  envelope_row, envelopes, set_envelopes, put_blobs, has_blob, read_snapshot, get_immutable,
}
use revu.Store.Snapshots.RoundTrip.{written, read_snapshot-whole, read_snapshot-absent}
use revu.Store.Snapshots.Sweeps.{half_at-delete_immutables}

-- The envelope names a half that is stored.
abbrev pub HasHalf : List ImmutableRow → EnvelopeRow → Type 0
HasHalf halves r =
    (key : Text) × (r.compare_key ≡ some key) × IsStored text_keys half_key key halves

abbrev pub Parses : ImmutableRow → Type 0
Parses half = (stored : StoredImmutable) × (half.document ≡ some stored)

abbrev pub IsWhole : Database → Type 0
IsWhole db =
    All (HasHalf db.immutables) db.snapshots
    × All (HasHalf db.immutables) db.local_snapshots
    × All Parses db.immutables

abbrev pub empty_database : Database
empty_database = record { immutables = []; snapshots = []; local_snapshots = []; blobs = [] }

pub put_half-IsWhole :
    (stored : StoredImmutable) (db : Database) → IsWhole db → IsWhole (put_half stored db)
put_half-IsWhole stored db (pulls, locals, halves) =
    let row : ImmutableRow = record {
      compare_key = stored.immutable.compare_key;
      document = some stored;
    } in
    let kept : (r : EnvelopeRow)
        → HasHalf db.immutables r
        → HasHalf (put_half stored db).immutables r =
      λ r (key, named, m).
        (key, named, upsert-keeps_IsStored text_keys half_key key row db.immutables m) in
    (
      All-mono (HasHalf db.immutables) (HasHalf (put_half stored db).immutables) kept db.snapshots
          pulls,
      All-mono (HasHalf db.immutables) (HasHalf (put_half stored db).immutables) kept
          db.local_snapshots locals,
      upsert-All text_keys half_key Parses row db.immutables (stored, refl) halves,
    )

set_envelopes-IsWhole :
    (t : SnapshotTable) (rows : List EnvelopeRow) (db : Database)
    → All (HasHalf db.immutables) rows
    → IsWhole db
    → IsWhole (set_envelopes t rows db)
set_envelopes-IsWhole of_pull rows db h (_, locals, halves) = (h, locals, halves)
set_envelopes-IsWhole of_local rows db h (pulls, _, halves) = (pulls, h, halves)

IsWhole-envelopes :
    (t : SnapshotTable) (db : Database) → IsWhole db → All (HasHalf db.immutables) (envelopes t db)
IsWhole-envelopes of_pull db h = h.0
IsWhole-envelopes of_local db h = h.1

pub written-IsWhole :
    (t : SnapshotTable) (db : Database) (s : Snapshot) (partial : Option Json)
    → IsWhole db
    → IsWhole (written t db s partial)
written-IsWhole t db s partial h =
    let stored : StoredImmutable = record { immutable = s.immutable; partial = partial } in
    let with_half = put_half stored db in
    let whole = put_half-IsWhole stored db h in
    let row : ImmutableRow = record {
      compare_key = s.immutable.compare_key;
      document = some stored;
    } in
    let own : HasHalf with_half.immutables (envelope_row s) =
      (s.immutable.compare_key, refl, upsert-IsStored text_keys half_key row db.immutables) in
    set_envelopes-IsWhole t
      (upsert number_keys envelope_key (envelope_row s) (envelopes t with_half)) with_half
      (upsert-All number_keys envelope_key (HasHalf with_half.immutables) (envelope_row s)
        (envelopes t with_half) own (IsWhole-envelopes t with_half whole))
      whole

HasHalf-delete_immutables :
    (db db' : Database) (keys : List Text) (d : Deletion) (r : EnvelopeRow)
    → delete_immutables db keys ≡ ok (d, db')
    → ((key : Text) → r.compare_key ≡ some key → IsLive db key)
    → HasHalf db.immutables r
    → HasHalf db'.immutables r
HasHalf-delete_immutables db db' keys d r h live (key, named, m) =
    let (half, there, at) = select-IsStored text_keys half_key key db.immutables m in
    let still = half_at-delete_immutables db db' keys d key h (live key named) ∙ there in
    let found = find-Contains (at_key text_keys half_key key) db'.immutables half still in
    (
      key,
      named,
      subst (λ k. IsStored text_keys half_key k db'.immutables) at
          (Contains-IsStored text_keys half_key half db'.immutables found),
    )

pub delete_immutables-IsWhole :
    (db db' : Database) (keys : List Text) (d : Deletion)
    → delete_immutables db keys ≡ ok (d, db')
    → IsWhole db
    → IsWhole db'
delete_immutables-IsWhole db db' keys d h (pulls, locals, halves) =
    let (same_pulls, same_locals, _, left) = delete_immutables_lem db db' keys d h in
    let kept : (r : EnvelopeRow)
        → ((key : Text) → r.compare_key ≡ some key → IsLive db key)
        → HasHalf db.immutables r
        → HasHalf db'.immutables r =
      λ r. HasHalf-delete_immutables db db' keys d r h in
    (
      rw same_pulls (
          All-Contains (HasHalf db'.immutables) db.snapshots λ r m.
            kept r (λ key named. inl (Contains-Names db.snapshots r key m named))
              (Contains-All (HasHalf db.immutables) db.snapshots pulls m)),
      rw same_locals (
          All-Contains (HasHalf db'.immutables) db.local_snapshots λ r m.
            kept r (λ key named. inr (Contains-Names db.local_snapshots r key m named))
              (Contains-All (HasHalf db.immutables) db.local_snapshots locals m)),
      All-Contains Parses db'.immutables
          λ half m. Contains-All Parses db.immutables halves ((left half).0 m).0,
    )

pub put_blobs-IsWhole : (bs : List BlobRow) (db : Database) → IsWhole db → IsWhole (put_blobs db bs)
unfolding put_blobs
put_blobs-IsWhole [] db h = h
put_blobs-IsWhole (b ∷ bs) db h = put_blobs-IsWhole bs _ (if_ind IsWhole (has_blob db b.sha) h h)

pub filter-All :
    (P : EnvelopeRow → Type 0) (keep : EnvelopeRow → Bool) (rows : List EnvelopeRow)
    → All P rows
    → All P (filter keep rows)
filter-All P keep rows h =
    All-Contains P (filter keep rows)
      λ r m. Contains-All P rows h ((Contains-filter keep r rows).0 m).0

pub IsWhole-Parses :
    (db : Database) (key : Text) (half : ImmutableRow)
    → IsWhole db
    → half_at key db ≡ some half
    → Parses half
IsWhole-Parses db key half whole there =
    Contains-All Parses db.immutables whole.2
      (find-Contains (at_key text_keys half_key key) db.immutables half there)

pub IsWhole-read_snapshot :
    (t : SnapshotTable) (db : Database) (number : ℕ)
    → IsWhole db
    → (out : Option Snapshot) × (read_snapshot t db number ≡ ok out)
IsWhole-read_snapshot t db number whole =
    elim (Option-cases (select number_keys envelope_key number (envelopes t db))) [
      | inl e ↦ (none, read_snapshot-absent t db number e)
      | inr (row, e) ↦
          let m = find-Contains (at_key number_keys envelope_key number) (envelopes t db) row e in
          let (key, named, stands) =
            Contains-All (HasHalf db.immutables) (envelopes t db) (IsWhole-envelopes t db whole)
              m in
          let (half, there, _) = select-IsStored text_keys half_key key db.immutables stands in
          let (stored, parsed) = IsWhole-Parses db key half whole there in
          (_, read_snapshot-whole t db number row key half stored e named there parsed)
    ]

pub IsWhole-get_immutable :
    (db : Database) (key : Text)
    → IsWhole db
    → (out : Option (SnapshotImmutable × Option Json)) × (get_immutable db key ≡ ok out)
unfolding get_immutable
IsWhole-get_immutable db key whole = elim (Option-cases (half_at key db)) [
  | inl e ↦ (none, rw (get_immutable, e) refl)
  | inr (half, e) ↦
      let (stored, parsed) = IsWhole-Parses db key half whole e in
      (some (stored.immutable, stored.partial), rw (get_immutable, e, parsed) refl)
]
