-- ===== src/Store/Snapshots/Reach.antt =====
-- The stores that the operations on snapshots, halves and blobs reach, sweeps among them.
use revu.Prelude.{ℕ, ◌≡◌, sym, subst, Bool, inl, inr, ◌↔◌, Option, List, Contains, Text}
use revu.Prelude.Results.{ok}
use revu.Retention.{
  Json, SnapshotImmutable, BlobRow, Database, SyncGate, Swept, prune_immutables, prune_blobs,
}
use revu.Retention.Sweep.{prune_immutables-delete_immutables}
use revu.Retention.Blobs.{prune_blobs_lem}
use revu.Store.Snapshots.{
  Snapshot, SnapshotTable, write_snapshot_rows, put_immutable, put_blobs, read_snapshot,
  get_immutable, delete_local_snapshot,
}
use revu.Store.Snapshots.Refusals.{write_snapshot_rows_total}
use revu.Store.Snapshots.RoundTrip.{write_snapshot_rows-written}
use revu.Store.Snapshots.Whole.{
  HasHalf, IsWhole, empty_database, put_half-IsWhole, written-IsWhole, delete_immutables-IsWhole,
  put_blobs-IsWhole, filter-All, IsWhole-Parses, IsWhole-read_snapshot, IsWhole-get_immutable,
}

-- What the operations of the store do to its snapshots, halves and blobs. `sorted` is the order in
-- which it lists keys.
module _ (sorted : List Text → List Text) where
  pub data StoreStep : Database → Database → Type 0 where
    half_put :
        (db : Database) (immutable : SnapshotImmutable) (partial : Option Json)
        → StoreStep db (put_immutable db immutable partial)
    snapshot_put :
        (t : SnapshotTable) (db db' : Database) (s : Snapshot)
        → write_snapshot_rows t db s ≡ ok db'
        → StoreStep db db'
    blobs_put : (db : Database) (bs : List BlobRow) → StoreStep db (put_blobs db bs)
    local_snapshot_deleted :
        (db : Database) (number : ℕ) → StoreStep db (delete_local_snapshot db number)
    halves_swept :
        (gate : SyncGate) (db db' : Database) (s : Swept)
        → prune_immutables sorted db gate ≡ ok (s, db')
        → StoreStep db db'
    blobs_swept :
        (gate : SyncGate) (reclaim : Bool) (db db' : Database) (s : Swept)
        → prune_blobs sorted db gate reclaim ≡ ok (s, db')
        → StoreStep db db'

  pub data StoreReach : Database → Database → Type 0 where
    here : (db : Database) → StoreReach db db
    then_step : (a b c : Database) → StoreReach a b → StoreStep b c → StoreReach a c

  module _ (same : (x : Text) (xs : List Text) → Contains x (sorted xs) ↔ Contains x xs) where
    prune_immutables-IsWhole :
        (gate : SyncGate) (db db' : Database) (s : Swept)
        → prune_immutables sorted db gate ≡ ok (s, db')
        → IsWhole db
        → IsWhole db'
    prune_immutables-IsWhole gate db db' s run h =
        elim (prune_immutables-delete_immutables sorted gate db db' s run) [
          | inl unchanged ↦ subst IsWhole (sym unchanged) h
          | inr (keys, d, out) ↦ delete_immutables-IsWhole db db' keys d out h
        ]

    move_IsWhole :
        (db db' : Database)
        → db'.immutables ≡ db.immutables
        → db'.snapshots ≡ db.snapshots
        → db'.local_snapshots ≡ db.local_snapshots
        → IsWhole db
        → IsWhole db'
    move_IsWhole db db' a b c h = rw (a, b, c) h

    prune_blobs-IsWhole :
        (gate : SyncGate) (reclaim : Bool) (db db' : Database) (s : Swept)
        → prune_blobs sorted db gate reclaim ≡ ok (s, db')
        → IsWhole db
        → IsWhole db'
    prune_blobs-IsWhole gate reclaim db db' s run h =
        elim (prune_blobs_lem sorted same gate reclaim db db' s run) [
          | inl (_, _, unchanged) ↦ subst IsWhole (sym unchanged) h
          | inr (inl (_, _, _, unchanged)) ↦ subst IsWhole (sym unchanged) h
          | inr (inr (_, _, _, (a, b, c, _))) ↦ move_IsWhole db db' a b c h
        ]

    StoreStep-IsWhole : {db db' : Database} → StoreStep db db' → IsWhole db → IsWhole db'
    unfolding put_immutable delete_local_snapshot
    StoreStep-IsWhole (half_put db immutable partial) h =
        put_half-IsWhole record { immutable = immutable; partial = partial } db h
    StoreStep-IsWhole (snapshot_put t db db' s run) h =
        let (partial, _, out) = write_snapshot_rows-written t db db' s run in
        subst IsWhole (sym out) (written-IsWhole t db s partial h)
    StoreStep-IsWhole (blobs_put db bs) h = put_blobs-IsWhole bs db h
    StoreStep-IsWhole (local_snapshot_deleted db number) (pulls, locals, halves) =
        (pulls, filter-All (HasHalf db.immutables) _ db.local_snapshots locals, halves)
    StoreStep-IsWhole (halves_swept gate db db' s run) h =
        prune_immutables-IsWhole gate db db' s run h
    StoreStep-IsWhole (blobs_swept gate reclaim db db' s run) h =
        prune_blobs-IsWhole gate reclaim db db' s run h

    StoreReach-IsWhole : {a b : Database} → StoreReach a b → IsWhole a → IsWhole b
    StoreReach-IsWhole (here a) h = h
    StoreReach-IsWhole (then_step a b c r st) h = StoreStep-IsWhole st (StoreReach-IsWhole r h)

    -- Where the order in which keys are listed keeps them, and a store started empty and was changed
    -- by its own operations, in any order and with sweeps among them: each snapshot of
    -- either table and each half is read or absent, never unreadable, and each can be stored.
    pub read_snapshot-StoreReach :
        (db : Database)
        → StoreReach empty_database db
        → ((t : SnapshotTable) (number : ℕ)
            → (out : Option Snapshot) × (read_snapshot t db number ≡ ok out))
          × ((key : Text)
              → (out : Option (SnapshotImmutable × Option Json)) × (get_immutable db key ≡ ok out))
          × ((t : SnapshotTable) (s : Snapshot)
              → (db' : Database) × (write_snapshot_rows t db s ≡ ok db'))
    read_snapshot-StoreReach db reach =
        let whole = StoreReach-IsWhole reach (tt, tt, tt) in
        (
          λ t number. IsWhole-read_snapshot t db number whole,
          λ key. IsWhole-get_immutable db key whole,
          λ t s. write_snapshot_rows_total t db s λ half there broken.
              let (stored, e) = IsWhole-Parses db s.immutable.compare_key half whole there in cc,
        )
