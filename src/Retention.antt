-- ===== src/Retention.antt =====
-- retention.ts, the sweeps over the cached halves and the blobs, and the deletions of the store
-- that they call (store.ts). A table is the list of its rows; a row is what `parseRow` makes of
-- its text, so a field that is missing or has another type is `none` or `malformed`.
pub mod Sets
pub mod Sweep
pub mod Closed
pub mod Blobs
pub mod Gate
pub mod Refs
mod Tests
use revu.Prelude.{
  ℕ, zero, suc, Bool, true, false, not, Option, none, some, List, [], ◌∷◌, ◌++◌, if◌then◌else◌, any,
  filter, length, map, ◌-◌, Text, text_eq, is_empty,
}
use revu.Prelude.Results.{Result, ok, err, ◌>>=◌}

pub data Table : Type 0 where
  immutables_table snapshots_table local_snapshots_table : Table
  drafts_table viewed_table prefs_table meta_table local_reviews_table : Table
  local_drafts_table local_viewed_table local_threads_table local_submitted_table : Table

-- The key by which an unreadable row is reported.
pub data RowKey : Type 0 where
  numbered : ℕ → RowKey
  keyed : Text → RowKey
  of_human : Text → ℕ → RowKey
  in_review : ℕ → RowKey → RowKey

-- StoreUnreadableError
pub record Unreadable : Type 0 where
  pub table : Table
  pub row_key : RowKey

-- A part of a document that the modelled code carries and does not read.
abbrev pub Json : Type 0
Json = Text

-- The fields of StoredSnapshotEnvelope, other than its compare key.
pub record Envelope : Type 0 where
  pub pr_number : ℕ
  pub synced_at : Text
  pub partial : Option Json
  pub sync_stats : Json
  pub mutable : Json

-- The compare key is `none` where the envelope does not parse or has no text in that field.
pub record EnvelopeRow : Type 0 where
  pub row_key : ℕ
  pub compare_key : Option Text
  pub envelope : Envelope

pub data StoredSide : Type 0 where
  absent malformed : StoredSide
  named : Text → StoredSide

pub record StoredSides : Type 0 where
  pub base : StoredSide
  pub head : StoredSide

-- A blob index that cannot be walked is `none`, as is an entry that is not an object.
pub record SnapshotImmutable : Type 0 where
  pub compare_key : Text
  pub blob_index : Option (List (Option StoredSides))
  pub rest : Json

pub record StoredImmutable : Type 0 where
  pub immutable : SnapshotImmutable
  pub partial : Option Json

-- A document that does not parse is `none`.
pub record ImmutableRow : Type 0 where
  pub compare_key : Text
  pub document : Option StoredImmutable

abbrev pub index_of : ImmutableRow → Option (List (Option StoredSides))
index_of r = elim r.document [ none ↦ none | some stored ↦ stored.immutable.blob_index ]

pub record BlobRow : Type 0 where
  pub sha : Text
  pub content : Text

pub record Database : Type 0 where
  pub immutables : List ImmutableRow
  pub snapshots : List EnvelopeRow
  pub local_snapshots : List EnvelopeRow
  pub blobs : List BlobRow

-- A Set of texts, in the order of insertion.
abbrev pub has : Text → List Text → Bool
has k ks = any (text_eq k) ks

abbrev pub add_key : Text → List Text → List Text
add_key k ks = if has k ks then ks else ks ++ (k ∷ [])

abbrev pub set_of : List Text → List Text → List Text
set_of [] seen = seen
set_of (k ∷ ks) seen = set_of ks (add_key k seen)

-- `typeof v !== 'string' || v.length === 0` refuses
abbrev pub usable : Option Text → Option Text
usable none = none
usable (some k) = if is_empty k then none else some k

pub collect_compare_keys : Table → List EnvelopeRow → List Text → Result Unreadable (List Text)
collect_compare_keys t [] into = ok into
collect_compare_keys t (r ∷ rs) into = elim (usable r.compare_key) [
  | none ↦ err record { table = t; row_key = numbered r.row_key }
  | some k ↦ collect_compare_keys t rs (add_key k into)
]

pub live_compare_keys : Database → Result Unreadable (List Text)
unfolding collect_compare_keys
live_compare_keys db =
    collect_compare_keys snapshots_table db.snapshots []
    >>= collect_compare_keys local_snapshots_table db.local_snapshots

abbrev pub add_side : StoredSide → List Text → Option (List Text)
add_side absent into = some into
add_side malformed into = none
add_side (named sha) into = if is_empty sha then none else some (add_key sha into)

abbrev pub add_sides : StoredSides → List Text → Option (List Text)
add_sides s into = elim (add_side s.base into) [ none ↦ none | some into' ↦ add_side s.head into' ]

pub add_entries : List (Option StoredSides) → List Text → Option (List Text)
add_entries [] into = some into
add_entries (none ∷ es) into = none
add_entries (some s ∷ es) into = elim (add_sides s into) [
  | none ↦ none
  | some into' ↦ add_entries es into'
]

-- addBlobShas, `none` where it throws
abbrev pub add_blob_shas : Option (List (Option StoredSides)) → List Text → Option (List Text)
add_blob_shas none into = none
add_blob_shas (some es) into = add_entries es into

pub referenced_from : List ImmutableRow → List Text → Result Unreadable (List Text)
unfolding add_entries
referenced_from [] into = ok into
referenced_from (r ∷ rs) into = elim (add_blob_shas (index_of r) into) [
  | none ↦ err record { table = immutables_table; row_key = keyed r.compare_key }
  | some into' ↦ referenced_from rs into'
]

pub referenced_blob_shas : Database → Result Unreadable (List Text)
unfolding referenced_from
referenced_blob_shas db = referenced_from db.immutables []

-- The loop of a deletion over the distinct keys that it is given. A row goes when its key is one
-- of them and is not needed; a key is reported when rows went.
module _ {R : Type 0} (key_of : R → Text) (needed : List Text) where
  pub delete_loop : List Text → List R → List Text → List R × List Text
  delete_loop [] rows removed = (rows, removed)
  delete_loop (k ∷ ks) rows removed = elim (has k needed) [
    | true ↦ delete_loop ks rows removed
    | false ↦
        delete_loop ks (filter (λ r. not (text_eq k (key_of r))) rows)
          (if any (λ r. text_eq k (key_of r)) rows then removed ++ (k ∷ []) else removed)
  ]

pub record Deletion : Type 0 where
  pub count : ℕ
  pub removed : List Text

abbrev pub deletion_of : List Text → Deletion
deletion_of removed = record { count = length removed; removed = removed }

pub delete_immutables : Database → List Text → Result Unreadable (Deletion × Database)
unfolding live_compare_keys delete_loop
delete_immutables db keys = live_compare_keys db >>= λ live.
    let out = delete_loop (λ r. r.compare_key) live (set_of keys []) db.immutables [] in
    ok (deletion_of out.1, record db { immutables = out.0 })

pub delete_blobs : Database → List Text → Result Unreadable (Deletion × Database)
unfolding referenced_blob_shas delete_loop
delete_blobs db shas = referenced_blob_shas db >>= λ referenced.
    let out = delete_loop (λ r. r.sha) referenced (set_of shas []) db.blobs [] in
    ok (deletion_of out.1, record db { blobs = out.0 })

pub record SyncGate : Type 0 where
  pub in_flight : ℕ

abbrev pub create_sync_gate : SyncGate
create_sync_gate = record { in_flight = 0 }

-- What a sweep answers.
pub data Swept : Type 0 where
  skipped : ℕ → Swept
  withheld : Swept
  deleted : Deletion → Swept

abbrev pub sweep_held_off : SyncGate → Option Swept
sweep_held_off gate = elim gate.in_flight [ zero ↦ none | suc n ↦ some (skipped (suc n)) ]

-- gate.inFlight += 1, and the `finally` that takes it back
abbrev pub enter_sync : SyncGate → SyncGate
enter_sync gate = record { in_flight = suc gate.in_flight }

abbrev pub leave_sync : SyncGate → SyncGate
leave_sync gate = record { in_flight = gate.in_flight - 1 }

-- The gate rises for the sync and falls when it is over, also when it fails.
abbrev pub with_sync_in_flight {ℓ} :
    {T : Type ℓ} → (SyncGate → T × SyncGate) → SyncGate → T × SyncGate
with_sync_in_flight fn gate = let (out, after) = fn (enter_sync gate) in (out, leave_sync after)

-- `sorted` is the order in which the store lists keys (ORDER BY and sort).
module _ (sorted : List Text → List Text) where
  unfoldable pub prune_immutables : Database → SyncGate → Result Unreadable (Swept × Database)
  unfolding delete_immutables
  prune_immutables db gate = elim (sweep_held_off gate) [
    | some s ↦ ok (s, db)
    | none ↦
        let stored = sorted (map (λ r. r.compare_key) db.immutables) in
        live_compare_keys db >>= λ keys.
        let live = set_of (sorted keys) [] in
        delete_immutables db (filter (λ k. not (has k live)) stored) >>= λ (d, db').
        ok (deleted d, db')
  ]

  pub prune_blobs : Database → SyncGate → Bool → Result Unreadable (Swept × Database)
  unfolding delete_blobs
  prune_blobs db gate reclaim_blobs = elim (sweep_held_off gate) [
    | some s ↦ ok (s, db)
    | none ↦ elim reclaim_blobs [
      | false ↦ ok (withheld, db)
      | true ↦
          let stored = sorted (map (λ r. r.sha) db.blobs) in
          referenced_blob_shas db >>= λ shas.
          let referenced = set_of (sorted shas) [] in
          delete_blobs db (filter (λ sha. not (has sha referenced)) stored) >>= λ (d, db').
          ok (deleted d, db')
    ]
  ]
