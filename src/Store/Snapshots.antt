-- ===== src/Store/Snapshots.antt =====
-- The snapshots of the store and their cached halves: what is written when a snapshot is stored,
-- and what is joined when it is read. Rows of `snapshots` and of `local_snapshots` are kept
-- and read by the same statements, which differ in the table.
pub mod RoundTrip
pub mod Added
pub mod Refusals
pub mod Sweeps
pub mod Whole
pub mod Reach
mod Tests
use revu.Prelude.{
  ℕ, ◌≡◌, Bool, true, false, Option, none, some, List, [], ◌∷◌, ◌++◌, if◌then◌else◌, any, Text,
  text_eq,
}
use revu.Prelude.Results.{Result, ok, err, ◌>>=◌}
use revu.Retention.{
  Table, immutables_table, snapshots_table, local_snapshots_table, keyed, numbered, Unreadable,
  Json, EnvelopeRow, SnapshotImmutable, StoredImmutable, ImmutableRow, BlobRow, Database,
}
use revu.Store.Tables.{number_keys, text_keys, select, upsert, delete_at}

pub record Snapshot : Type 0 where
  pub pr_number : ℕ
  pub synced_at : Text
  pub partial : Option Json
  pub sync_stats : Json
  pub immutable : SnapshotImmutable
  pub mutable : Json

-- The table and key column that the two call sites of writeSnapshotRows name.
pub data SnapshotTable : Type 0 where
  of_pull of_local : SnapshotTable

abbrev pub table_name : SnapshotTable → Table
table_name of_pull = snapshots_table
table_name of_local = local_snapshots_table

abbrev pub envelopes : SnapshotTable → Database → List EnvelopeRow
envelopes of_pull db = db.snapshots
envelopes of_local db = db.local_snapshots

abbrev pub set_envelopes : SnapshotTable → List EnvelopeRow → Database → Database
set_envelopes of_pull rows db = record db { snapshots = rows }
set_envelopes of_local rows db = record db { local_snapshots = rows }

abbrev pub half_key : ImmutableRow → Text
half_key r = r.compare_key

abbrev pub envelope_key : EnvelopeRow → ℕ
envelope_key r = r.row_key

abbrev pub half_at : Text → Database → Option ImmutableRow
half_at key db = select text_keys half_key key db.immutables

abbrev pub parse_half : Text → ImmutableRow → Result Unreadable StoredImmutable
parse_half key row = elim row.document [
  | none ↦ err record { table = immutables_table; row_key = keyed key }
  | some stored ↦ ok stored
]

pub own_immutable_partial : Database → Text → Result Unreadable (Option Json)
own_immutable_partial db key = elim (half_at key db) [
  | none ↦ ok none
  | some row ↦ parse_half key row >>= λ stored. ok stored.partial
]

abbrev pub put_half : StoredImmutable → Database → Database
put_half stored db = record db {
  immutables =
      upsert text_keys half_key
        record { compare_key = stored.immutable.compare_key; document = some stored } db.immutables;
}

-- The envelope that is stored for a snapshot.
abbrev pub envelope_row : Snapshot → EnvelopeRow
envelope_row snapshot = record {
  row_key = snapshot.pr_number;
  compare_key = some snapshot.immutable.compare_key;
  envelope = record {
    pr_number = snapshot.pr_number;
    synced_at = snapshot.synced_at;
    partial = snapshot.partial;
    sync_stats = snapshot.sync_stats;
    mutable = snapshot.mutable;
  };
}

pub write_snapshot_rows : SnapshotTable → Database → Snapshot → Result Unreadable Database
unfolding own_immutable_partial upsert
write_snapshot_rows t db snapshot =
    own_immutable_partial db snapshot.immutable.compare_key >>= λ partial.
    let with_half = put_half record { immutable = snapshot.immutable; partial = partial } db in
    let rows = upsert number_keys envelope_key (envelope_row snapshot) (envelopes t with_half) in
    ok (set_envelopes t rows with_half)

abbrev pub put_snapshot : Database → Snapshot → Result Unreadable Database
put_snapshot = write_snapshot_rows of_pull

abbrev pub put_local_snapshot : Database → Snapshot → Result Unreadable Database
put_local_snapshot = write_snapshot_rows of_local

pub get_immutable : Database → Text → Result Unreadable (Option (SnapshotImmutable × Option Json))
get_immutable db key = elim (half_at key db) [
  | none ↦ ok none
  | some row ↦ parse_half key row >>= λ stored. ok (some (stored.immutable, stored.partial))
]

pub put_immutable : Database → SnapshotImmutable → Option Json → Database
unfolding upsert
put_immutable db immutable partial = put_half record { immutable = immutable; partial = partial } db

abbrev pub assembled : EnvelopeRow → StoredImmutable → Snapshot
assembled row stored =
    let e = row.envelope in
    record {
      pr_number = e.pr_number;
      synced_at = e.synced_at;
      partial = e.partial;
      sync_stats = e.sync_stats;
      immutable = stored.immutable;
      mutable = e.mutable;
    }

-- A snapshot whose half is not stored is unreadable, and not absent.
abbrev pub joined : SnapshotTable → ℕ → Database → EnvelopeRow → Result Unreadable Snapshot
joined t number db row =
    let unreadable = err record { table = table_name t; row_key = numbered number } in
    elim row.compare_key [
      | none ↦ unreadable
      | some key ↦ elim (half_at key db) [
        | none ↦ unreadable
        | some half ↦ parse_half key half >>= λ stored. ok (assembled row stored)
      ]
    ]

pub read_snapshot : SnapshotTable → Database → ℕ → Result Unreadable (Option Snapshot)
read_snapshot t db number = elim (select number_keys envelope_key number (envelopes t db)) [
  | none ↦ ok none
  | some row ↦ joined t number db row >>= λ snapshot. ok (some snapshot)
]

abbrev pub get_snapshot : Database → ℕ → Result Unreadable (Option Snapshot)
get_snapshot = read_snapshot of_pull

abbrev pub get_local_snapshot : Database → ℕ → Result Unreadable (Option Snapshot)
get_local_snapshot = read_snapshot of_local

abbrev pub has_blob : Database → Text → Bool
has_blob db sha = any (λ r. text_eq sha r.sha) db.blobs

-- ON CONFLICT(sha) DO NOTHING
pub put_blobs : Database → List BlobRow → Database
put_blobs db [] = db
put_blobs db (b ∷ bs) =
    put_blobs (if has_blob db b.sha then db else record db { blobs = db.blobs ++ (b ∷ []) }) bs

-- The statement on `local_snapshots` of deleteLocalReview.
unfoldable pub delete_local_snapshot : Database → ℕ → Database
delete_local_snapshot db number = record db {
  local_snapshots = delete_at number_keys envelope_key number db.local_snapshots;
}
