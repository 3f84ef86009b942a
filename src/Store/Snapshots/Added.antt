-- ===== src/Store/Snapshots/Added.antt =====
-- What a write of a half does to the keys of the cached halves.
use revu.Prelude.{◌≡◌, subst, sym, Option, Text}
use revu.Prelude.Results.{ok}
use revu.Retention.{Json, SnapshotImmutable, ImmutableRow, StoredImmutable, Database}
use revu.Store.Tables.{text_keys, IsStored, upsert-IsStored, upsert-keeps_IsStored}
use revu.Store.Snapshots.{
  Snapshot, SnapshotTable, of_pull, of_local, half_key, put_half, put_immutable,
  write_snapshot_rows,
}
use revu.Store.Snapshots.RoundTrip.{written, write_snapshot_rows-written}

abbrev pub HasRow : Database → Text → Type 0
HasRow db key = IsStored text_keys half_key key db.immutables

-- That key has a row after the write, and every key that had one still does.
pub record Adds (key : Text) (db db' : Database) : Type 0 where
  pub added : HasRow db' key
  pub kept : (other : Text) → HasRow db other → HasRow db' other

put_half-Adds :
    (db : Database) (stored : StoredImmutable)
    → Adds stored.immutable.compare_key db (put_half stored db)
put_half-Adds db stored =
    let row : ImmutableRow = record {
      compare_key = stored.immutable.compare_key;
      document = Option.some stored;
    } in
    record {
      added = upsert-IsStored text_keys half_key row db.immutables;
      kept = λ other. upsert-keeps_IsStored text_keys half_key other row db.immutables;
    }

pub put_immutable-Adds :
    (db : Database) (half : SnapshotImmutable) (partial : Option Json)
    → Adds half.compare_key db (put_immutable db half partial)
unfolding put_immutable
put_immutable-Adds db half partial = put_half-Adds db record { immutable = half; partial = partial }

written-Adds :
    (t : SnapshotTable) (db : Database) (s : Snapshot) (partial : Option Json)
    → Adds s.immutable.compare_key db (written t db s partial)
written-Adds of_pull db s partial =
    let a = put_half-Adds db record { immutable = s.immutable; partial = partial } in
    record { added = a.added; kept = a.kept }
written-Adds of_local db s partial =
    let a = put_half-Adds db record { immutable = s.immutable; partial = partial } in
    record { added = a.added; kept = a.kept }

pub write_snapshot_rows-Adds :
    (t : SnapshotTable) (db db' : Database) (s : Snapshot)
    → write_snapshot_rows t db s ≡ ok db'
    → Adds s.immutable.compare_key db db'
write_snapshot_rows-Adds t db db' s h =
    let (partial, read, is) = write_snapshot_rows-written t db db' s h in
    subst (Adds s.immutable.compare_key db) (sym is) (written-Adds t db s partial)
