-- ===== src/Store/Snapshots/RoundTrip.antt =====
-- Storing a snapshot and reading it back.
use revu.Prelude.{ℕ, ◌≡◌, ◌≢◌, refl, sym, ap, ◌∙◌, inl, inr, Option, none, some, Option-cases, Text}
use revu.Prelude.Results.{ok, ◌>>=◌, >>=-eq-ok}
use revu.Retention.{Json, EnvelopeRow, ImmutableRow, StoredImmutable, Database}
use revu.Retention.Sweep.{ok_inj}
use revu.Store.Tables.{number_keys, text_keys, select, upsert, select-upsert, select-upsert_other}
use revu.Store.Snapshots.{
  Snapshot, assembled, SnapshotTable, of_pull, of_local, envelopes, set_envelopes, half_key,
  envelope_key, half_at, own_immutable_partial, put_half, envelope_row, write_snapshot_rows, joined,
  read_snapshot, get_immutable,
}

-- What a snapshot is stored as.
abbrev pub written : SnapshotTable → Database → Snapshot → Option Json → Database
written t db s partial =
    let with_half = put_half record { immutable = s.immutable; partial = partial } db in
    set_envelopes t (upsert number_keys envelope_key (envelope_row s) (envelopes t with_half))
      with_half

pub write_snapshot_rows-written :
    (t : SnapshotTable) (db db' : Database) (s : Snapshot)
    → write_snapshot_rows t db s ≡ ok db'
    → (partial : Option Json) × (own_immutable_partial db s.immutable.compare_key ≡ ok partial)
      × (db' ≡ written t db s partial)
unfolding write_snapshot_rows
write_snapshot_rows-written t db db' s h =
    let (partial, own, out) = >>=-eq-ok (own_immutable_partial db s.immutable.compare_key) _ h in
    (partial, own, sym (ok_inj out))

pub read_snapshot-absent :
    (t : SnapshotTable) (db : Database) (number : ℕ)
    → select number_keys envelope_key number (envelopes t db) ≡ none
    → read_snapshot t db number ≡ ok none
unfolding read_snapshot
read_snapshot-absent t db number h = rw (h, read_snapshot) refl

read_snapshot-row :
    (t : SnapshotTable) (db : Database) (number : ℕ) (row : EnvelopeRow)
    → select number_keys envelope_key number (envelopes t db) ≡ some row
    → read_snapshot t db number ≡ (joined t number db row >>= λ snapshot. ok (some snapshot))
unfolding read_snapshot
read_snapshot-row t db number row h = rw (h, read_snapshot) refl

pub read_snapshot-whole :
    (t : SnapshotTable) (db : Database) (number : ℕ) (row : EnvelopeRow) (key : Text)
    (half : ImmutableRow) (stored : StoredImmutable)
    → select number_keys envelope_key number (envelopes t db) ≡ some row
    → row.compare_key ≡ some key
    → half_at key db ≡ some half
    → half.document ≡ some stored
    → read_snapshot t db number ≡ ok (some (assembled row stored))
read_snapshot-whole t db number row key half stored at named there whole =
    read_snapshot-row t db number row at ∙ rw (joined, named, there, whole) refl

joined_congr :
    (t : SnapshotTable) (number : ℕ) (db db' : Database) (row : EnvelopeRow)
    → ((key : Text) → row.compare_key ≡ some key → half_at key db' ≡ half_at key db)
    → joined t number db' row ≡ joined t number db row
joined_congr t number db db' row halves = elim (Option-cases row.compare_key) [
  | inl e ↦ rw (joined, e) refl
  | inr (key, e) ↦ let same = halves key e in rw (joined, e, same) refl
]

-- What is read depends on the row of the number and on the half that it names.
pub read_snapshot_congr :
    (t : SnapshotTable) (number : ℕ) (db db' : Database)
    → select number_keys envelope_key number (envelopes t db')
      ≡ select number_keys envelope_key number (envelopes t db)
    → ((row : EnvelopeRow) (key : Text)
        → select number_keys envelope_key number (envelopes t db) ≡ some row
        → row.compare_key ≡ some key
        → half_at key db' ≡ half_at key db)
    → read_snapshot t db' number ≡ read_snapshot t db number
read_snapshot_congr t number db db' same halves =
    elim (Option-cases (select number_keys envelope_key number (envelopes t db))) [
      | inl e ↦
          read_snapshot-absent t db' number (same ∙ e) ∙ sym (read_snapshot-absent t db number e)
      | inr (row, e) ↦
          read_snapshot-row t db' number row (same ∙ e)
          ∙ ap (λ r. r >>= λ snapshot. ok (some snapshot))
              (joined_congr t number db db' row (λ key. halves row key e))
          ∙ sym (read_snapshot-row t db number row e)
    ]

module _ (db : Database) (s : Snapshot) (partial : Option Json) where
  abbrev stored : StoredImmutable
  stored = record { immutable = s.immutable; partial = partial }

  abbrev row : ImmutableRow
  row = record { compare_key = s.immutable.compare_key; document = some stored }

  half_at-written :
      (t : SnapshotTable) → half_at s.immutable.compare_key (written t db s partial) ≡ some row
  half_at-written of_pull = select-upsert text_keys half_key row db.immutables
  half_at-written of_local = select-upsert text_keys half_key row db.immutables

  half_at-written_other :
      (t : SnapshotTable) (key : Text)
      → key ≢ s.immutable.compare_key
      → half_at key (written t db s partial) ≡ half_at key db
  half_at-written_other of_pull key apart =
      select-upsert_other text_keys half_key key row db.immutables apart
  half_at-written_other of_local key apart =
      select-upsert_other text_keys half_key key row db.immutables apart

  envelopes-written :
      (t : SnapshotTable)
      → envelopes t (written t db s partial)
        ≡ upsert number_keys envelope_key (envelope_row s) (envelopes t db)
  envelopes-written of_pull = refl
  envelopes-written of_local = refl

  read_snapshot-written :
      (t : SnapshotTable) → read_snapshot t (written t db s partial) s.pr_number ≡ ok (some s)
  read_snapshot-written t =
      read_snapshot-whole t (written t db s partial) s.pr_number (envelope_row s)
        s.immutable.compare_key row stored
        (ap (select number_keys envelope_key s.pr_number) (envelopes-written t)
          ∙ select-upsert number_keys envelope_key (envelope_row s) (envelopes t db))
        refl (half_at-written t) refl

  get_immutable-written :
      (t : SnapshotTable)
      → get_immutable (written t db s partial) s.immutable.compare_key
        ≡ ok (some (s.immutable, partial))
  unfolding get_immutable
  get_immutable-written t = rw (get_immutable, half_at-written t) refl

  read_snapshot-written_other :
      (t : SnapshotTable) (number : ℕ)
      → number ≢ s.pr_number
      → ((row : EnvelopeRow)
          → select number_keys envelope_key number (envelopes t db) ≡ some row
          → row.compare_key ≢ some s.immutable.compare_key)
      → read_snapshot t (written t db s partial) number ≡ read_snapshot t db number
  read_snapshot-written_other t number apart other =
      read_snapshot_congr t number db (written t db s partial)
        (ap (select number_keys envelope_key number) (envelopes-written t)
          ∙ select-upsert_other number_keys envelope_key number (envelope_row s) (envelopes t db)
              apart)
        (λ row key at named. half_at-written_other t key (λ e. other row at (named ∙ ap some e)))

-- A snapshot that was stored, under a pull request or a local review, is read back as it was given,
-- and its half is read with the incompleteness that the half had in the store before, not with
-- the snapshot's own. Every other snapshot of the same table whose envelope names another half is
-- read as before.
pub read_snapshot-write_snapshot_rows :
    (t : SnapshotTable) (db db' : Database) (s : Snapshot)
    → write_snapshot_rows t db s ≡ ok db'
    → (read_snapshot t db' s.pr_number ≡ ok (some s))
      × ((partial : Option Json) × (own_immutable_partial db s.immutable.compare_key ≡ ok partial)
          × (get_immutable db' s.immutable.compare_key ≡ ok (some (s.immutable, partial))))
      × ((number : ℕ)
          → number ≢ s.pr_number
          → ((row : EnvelopeRow)
              → select number_keys envelope_key number (envelopes t db) ≡ some row
              → row.compare_key ≢ some s.immutable.compare_key)
          → read_snapshot t db' number ≡ read_snapshot t db number)
read_snapshot-write_snapshot_rows t db db' s h =
    let (partial, own, out) = write_snapshot_rows-written t db db' s h in
    rw out (
      read_snapshot-written db s partial t,
      (partial, own, get_immutable-written db s partial t),
      read_snapshot-written_other db s partial t,
    )
