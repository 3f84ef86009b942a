-- ===== src/Store/Snapshots/Sweeps.antt =====
-- The deletions of the sweeps, seen by the readers of snapshots.
use revu.Prelude.{ℕ, ◌≡◌, ap, subst, inl, inr, find-Contains, some, List, Text, text_eq_iff}
use revu.Prelude.Results.{ok}
use revu.Retention.{
  EnvelopeRow, Database, delete_immutables, Deletion, SyncGate, Swept, prune_immutables,
}
use revu.Retention.Sweep.{
  prune_immutables-delete_immutables, IsLive, Contains-Names, delete_immutables_lem,
  delete_immutables-find,
}
use revu.Store.Tables.{at_key, number_keys, text_keys, select}
use revu.Store.Snapshots.{
  SnapshotTable, of_pull, of_local, envelopes, half_key, envelope_key, half_at, read_snapshot,
}
use revu.Store.Snapshots.RoundTrip.{read_snapshot_congr}

pub half_at-delete_immutables :
    (db db' : Database) (keys : List Text) (d : Deletion) (key : Text)
    → delete_immutables db keys ≡ ok (d, db')
    → IsLive db key
    → half_at key db' ≡ half_at key db
half_at-delete_immutables db db' keys d key h live =
    delete_immutables-find db db' keys d (at_key text_keys half_key key) h
      λ r at. subst (IsLive db) ((text_eq_iff key r.compare_key).0 at) live

select-IsLive :
    (t : SnapshotTable) (db : Database) (number : ℕ) (row : EnvelopeRow) (key : Text)
    → select number_keys envelope_key number (envelopes t db) ≡ some row
    → row.compare_key ≡ some key
    → IsLive db key
select-IsLive of_pull db number row key at named = inl (
    Contains-Names db.snapshots row key
      (find-Contains (at_key number_keys envelope_key number) db.snapshots row at) named)
select-IsLive of_local db number row key at named = inr (
    Contains-Names db.local_snapshots row key
      (find-Contains (at_key number_keys envelope_key number) db.local_snapshots row at) named)

envelopes-delete_immutables :
    (t : SnapshotTable) (db db' : Database) (keys : List Text) (d : Deletion)
    → delete_immutables db keys ≡ ok (d, db')
    → envelopes t db' ≡ envelopes t db
envelopes-delete_immutables of_pull db db' keys d h = (delete_immutables_lem db db' keys d h).0
envelopes-delete_immutables of_local db db' keys d h = (delete_immutables_lem db db' keys d h).1

-- A deletion of halves that returns, whatever keys it was given, leaves every snapshot of either
-- table as it is read.
pub read_snapshot-delete_immutables :
    (t : SnapshotTable) (db db' : Database) (keys : List Text) (d : Deletion) (number : ℕ)
    → delete_immutables db keys ≡ ok (d, db')
    → read_snapshot t db' number ≡ read_snapshot t db number
read_snapshot-delete_immutables t db db' keys d number h =
    read_snapshot_congr t number db db'
      (ap (select number_keys envelope_key number) (envelopes-delete_immutables t db db' keys d h))
      (λ row key at named.
        half_at-delete_immutables db db' keys d key h (select-IsLive t db number row key at named))

-- A sweep of the cached halves that returns leaves every snapshot of either table as it is read.
pub read_snapshot-prune_immutables :
    (sorted : List Text → List Text) (t : SnapshotTable) (gate : SyncGate) (db db' : Database)
    (s : Swept) (number : ℕ)
    → prune_immutables sorted db gate ≡ ok (s, db')
    → read_snapshot t db' number ≡ read_snapshot t db number
read_snapshot-prune_immutables sorted t gate db db' s number h =
    elim (prune_immutables-delete_immutables sorted gate db db' s h) [
      | inl same ↦ ap (λ x. read_snapshot t x number) same
      | inr (keys, d, out) ↦ read_snapshot-delete_immutables t db db' keys d number out
    ]
