-- ===== src/Store/Snapshots/Tests.antt =====
-- A snapshot in an empty store, swept.
use revu.Prelude.{
  ◌≡◌, ◌≢◌, ℕ, refl, ◌↔◌, Option, none, some, List, [], ◌∷◌, Contains, Text, text_eq,
}
use revu.Prelude.Results.{ok}
use revu.Retention.{
  Json, EnvelopeRow, SnapshotImmutable, Database, SyncGate, Swept, deleted, prune_immutables,
}
use revu.Store.Tables.{upsert, number_keys, select}
use revu.Store.Snapshots.{
  Snapshot, SnapshotTable, of_pull, envelopes, envelope_key, own_immutable_partial,
  write_snapshot_rows, read_snapshot, get_immutable, put_immutable,
}
use revu.Store.Snapshots.RoundTrip.{written, read_snapshot-write_snapshot_rows}
use revu.Store.Snapshots.Sweeps.{read_snapshot-prune_immutables}
use revu.Store.Snapshots.Whole.{empty_database}
use revu.Store.Snapshots.Reach.{
  StoreReach, here, then_step, half_put, snapshot_put, halves_swept, read_snapshot-StoreReach,
}

abbrev half_of : Text → SnapshotImmutable
half_of key = record { compare_key = key; blob_index = some []; rest = [] }

abbrev pull : Snapshot
pull = record {
  pr_number = 7;
  synced_at = [];
  partial = some (b'm' ∷ []);
  sync_stats = [];
  immutable = half_of (b'k' ∷ []);
  mutable = [];
}

-- A half that nothing names, and the half of the pull request with its own incompleteness.
abbrev with_halves : Database
with_halves =
    put_immutable (put_immutable empty_database (half_of (b'o' ∷ [])) none) (half_of (b'k' ∷ []))
      (some (b'c' ∷ []))

abbrev with_pull : Database
with_pull = written of_pull with_halves pull (some (b'c' ∷ []))

pull_put : write_snapshot_rows of_pull with_halves pull ≡ ok with_pull
unfolding write_snapshot_rows own_immutable_partial put_immutable upsert text_eq
pull_put = refl

read_snapshot-write_snapshot_rows_example :
    (read_snapshot of_pull with_pull pull.pr_number ≡ ok (some pull))
    × ((partial : Option Json) × (own_immutable_partial with_halves pull.immutable.compare_key
          ≡ ok partial)
        × (get_immutable with_pull pull.immutable.compare_key
            ≡ ok (some (pull.immutable, partial))))
    × ((number : ℕ)
        → number ≢ pull.pr_number
        → ((row : EnvelopeRow)
            → select number_keys envelope_key number (envelopes of_pull with_halves) ≡ some row
            → row.compare_key ≢ some pull.immutable.compare_key)
        → read_snapshot of_pull with_pull number ≡ read_snapshot of_pull with_halves number)
read_snapshot-write_snapshot_rows_example =
    read_snapshot-write_snapshot_rows of_pull with_halves with_pull pull pull_put

abbrev idle : SyncGate
idle = record { in_flight = 0 }

abbrev as_listed : List Text → List Text
as_listed keys = keys

same_members : (x : Text) (xs : List Text) → Contains x (as_listed xs) ↔ Contains x xs
same_members x xs = (λ m. m, λ m. m)

abbrev orphan_gone : Swept
orphan_gone = deleted record { count = 1; removed = (b'o' ∷ []) ∷ [] }

-- The store without its first half.
abbrev swept_pull : Database
swept_pull =
    written of_pull (put_immutable empty_database (half_of (b'k' ∷ [])) (some (b'c' ∷ []))) pull
      (some (b'c' ∷ []))

pull_swept : prune_immutables as_listed with_pull idle ≡ ok (orphan_gone, swept_pull)
unfolding prune_immutables put_immutable upsert text_eq
pull_swept = refl

read_snapshot-prune_immutables_example :
    read_snapshot of_pull swept_pull 7 ≡ read_snapshot of_pull with_pull 7
read_snapshot-prune_immutables_example =
    read_snapshot-prune_immutables as_listed of_pull idle with_pull swept_pull orphan_gone 7
      pull_swept

swept-StoreReach : StoreReach as_listed empty_database swept_pull
swept-StoreReach =
    then_step empty_database with_pull swept_pull
      (then_step empty_database with_halves with_pull
        (then_step empty_database (put_immutable empty_database (half_of (b'o' ∷ [])) none)
          with_halves
          (then_step empty_database empty_database
            (put_immutable empty_database (half_of (b'o' ∷ [])) none) (here empty_database)
            (half_put empty_database (half_of (b'o' ∷ [])) none))
          (half_put (put_immutable empty_database (half_of (b'o' ∷ [])) none) (half_of (b'k' ∷ []))
            (some (b'c' ∷ []))))
        (snapshot_put of_pull with_halves with_pull pull pull_put))
      (halves_swept idle with_pull swept_pull orphan_gone pull_swept)

read_snapshot-StoreReach_example :
    ((t : SnapshotTable) (number : ℕ)
      → (out : Option Snapshot) × (read_snapshot t swept_pull number ≡ ok out))
    × ((key : Text)
        → (out : Option (SnapshotImmutable × Option Json)) × (get_immutable swept_pull key
            ≡ ok out))
    × ((t : SnapshotTable) (s : Snapshot)
        → (db' : Database) × (write_snapshot_rows t swept_pull s ≡ ok db'))
read_snapshot-StoreReach_example =
    read_snapshot-StoreReach as_listed same_members swept_pull swept-StoreReach
