-- ===== src/Retention/Gate.antt =====
-- retention.ts, `withSyncInFlight` beside the sweeps: syncs that run at the same time, and sweeps
-- that come between their writes. A sync enters the gate, writes halves and snapshots with the
-- store's own operations (putImmutable, and what putSnapshot and putLocalSnapshot share), and
-- leaves, also when it fails. DaemonStep is the order in which these may come: any.
use revu.Prelude.{
  suc, ◌≡◌, refl, arith, subst, sym, inl, inr, ◌↔◌, Option, some, List, [], ◌∷◌, ◌++◌, length, All,
  All-mono, Contains, Text,
}
use revu.Prelude.Results.{ok}
use revu.Retention.{
  Json, SnapshotImmutable, ImmutableRow, Database, SyncGate, create_sync_gate, enter_sync,
  leave_sync, Swept, prune_immutables,
}
use revu.Retention.Sweep.{prune_immutables_lem}
use revu.Store.Tables.{text_keys, select-IsStored}
use revu.Store.Snapshots.{
  Snapshot, SnapshotTable, half_key, half_at, put_immutable, write_snapshot_rows,
}
use revu.Store.Snapshots.Added.{HasRow, Adds, put_immutable-Adds, write_snapshot_rows-Adds}

-- Each running sync with the keys of the halves that it has written.
pub record Daemon : Type 0 where
  pub gate : SyncGate
  pub running : List (List Text)
  pub db : Database

module _ (sorted : List Text → List Text) where
  pub data DaemonStep : Daemon → Daemon → Type 0 where
    entered :
        (d : Daemon)
        → DaemonStep d record { gate = enter_sync d.gate; running = [] ∷ d.running; db = d.db }
    put :
        (gate : SyncGate) (before after : List (List Text)) (keys : List Text) (db : Database)
        (half : SnapshotImmutable) (partial : Option Json)
        → DaemonStep
            record { gate = gate; running = before ++ (keys ∷ after); db = db }
            record {
              gate = gate;
              running = before ++ ((half.compare_key ∷ keys) ∷ after);
              db = put_immutable db half partial;
            }
    stored :
        (gate : SyncGate) (before after : List (List Text)) (keys : List Text) (db db' : Database)
        (t : SnapshotTable) (snapshot : Snapshot)
        → write_snapshot_rows t db snapshot ≡ ok db'
        → DaemonStep
            record { gate = gate; running = before ++ (keys ∷ after); db = db }
            record {
              gate = gate;
              running = before ++ ((snapshot.immutable.compare_key ∷ keys) ∷ after);
              db = db';
            }
    left :
        (gate : SyncGate) (before after : List (List Text)) (keys : List Text) (db : Database)
        → DaemonStep
            record { gate = gate; running = before ++ (keys ∷ after); db = db }
            record { gate = leave_sync gate; running = before ++ after; db = db }
    swept :
        (d : Daemon) (s : Swept) (db' : Database)
        → prune_immutables sorted d.db d.gate ≡ ok (s, db')
        → DaemonStep d record d { db = db' }

  pub data DaemonSteps : Daemon → Daemon → Type 0 where
    here : (d : Daemon) → DaemonSteps d d
    then_step : (c d e : Daemon) → DaemonSteps c d → DaemonStep d e → DaemonSteps c e

abbrev HasRows : Database → List Text → Type 0
HasRows db keys = All (HasRow db) keys

-- A read of the cache under the key finds a half.
abbrev pub IsCached : Database → Text → Type 0
IsCached db key = (half : ImmutableRow) × (half_at key db ≡ some half)

HasRow-IsCached : (db : Database) (key : Text) → HasRow db key → IsCached db key
HasRow-IsCached db key h =
    let (half, there, at) = select-IsStored text_keys half_key key db.immutables h in (half, there)

record IsSafe (d : Daemon) : Type 0 where
  counted : d.gate.in_flight ≡ length d.running
  held : All (HasRows d.db) d.running

HasRows-after :
    (key : Text) (db db' : Database)
    → Adds key db db'
    → (before after : List (List Text)) (keys : List Text)
    → All (HasRows db) (before ++ (keys ∷ after))
    → All (HasRows db') (before ++ ((key ∷ keys) ∷ after))
HasRows-after key db db' a [] after keys (h, k) = (
  (a.added, All-mono (HasRow db) (HasRow db') a.kept keys h),
  All-mono (HasRows db) (HasRows db') (All-mono (HasRow db) (HasRow db') a.kept) after k,
)
HasRows-after key db db' a (x ∷ before) after keys (h, k) =
    (All-mono (HasRow db) (HasRow db') a.kept x h, HasRows-after key db db' a before after keys k)

HasRows-left :
    (db : Database) (before after : List (List Text)) (keys : List Text)
    → All (HasRows db) (before ++ (keys ∷ after))
    → All (HasRows db) (before ++ after)
HasRows-left db [] after keys (a, k) = k
HasRows-left db (x ∷ before) after keys (a, k) = (a, HasRows-left db before after keys k)

length_between :
    (before after : List (List Text)) (keys : List Text)
    → length (before ++ (keys ∷ after)) ≡ suc (length (before ++ after))
length_between [] after keys = refl
length_between (x ∷ before) after keys = omega (arith, length_between before after keys)

HasRows-idle :
    (db : Database) (running : List (List Text)) → length running ≡ 0 → All (HasRows db) running
HasRows-idle db [] e = tt
HasRows-idle db (x ∷ xs) e = absurd (omega arith)

-- One sync has written one more half.
wrote-IsSafe :
    (gate : SyncGate) (before after : List (List Text)) (keys : List Text) (db db' : Database)
    (key : Text)
    → Adds key db db'
    → IsSafe record { gate = gate; running = before ++ (keys ∷ after); db = db }
    → IsSafe record { gate = gate; running = before ++ ((key ∷ keys) ∷ after); db = db' }
wrote-IsSafe gate before after keys db db' key a k = record {
  counted = omega (
    arith,
    k.counted,
    length_between before after keys,
    length_between before after (key ∷ keys),
  );
  held = HasRows-after key db db' a before after keys k.held;
}

module _ (sorted : List Text → List Text)
    (same : (x : Text) (xs : List Text) → Contains x (sorted xs) ↔ Contains x xs) where
  DaemonStep-IsSafe : (d e : Daemon) → DaemonStep sorted d e → IsSafe d → IsSafe e
  DaemonStep-IsSafe d e (entered d') k = record {
    counted = omega (arith, k.counted);
    held = (tt, k.held);
  }
  DaemonStep-IsSafe d e (put gate before after keys db half partial) k =
      wrote-IsSafe gate before after keys db _ half.compare_key (put_immutable-Adds db half partial)
        k
  DaemonStep-IsSafe d e (stored gate before after keys db db' t snapshot h) k =
      wrote-IsSafe gate before after keys db db' snapshot.immutable.compare_key
        (write_snapshot_rows-Adds t db db' snapshot h) k
  DaemonStep-IsSafe d e (left gate before after keys db) k = record {
    counted = omega (arith, k.counted, length_between before after keys);
    held = HasRows-left db before after keys k.held;
  }
  DaemonStep-IsSafe d e (swept d' s db' run) k = record {
    counted = k.counted;
    held = elim (prune_immutables_lem sorted same d.gate d.db db' s run) [
      | inl (busy, is, unchanged) ↦ subst (λ db. All (HasRows db) d.running) (sym unchanged) k.held
      | inr (idle, out, reclaimed) ↦ HasRows-idle db' d.running (omega (arith, k.counted, idle))
    ];
  }

  DaemonSteps-IsSafe : (d e : Daemon) → DaemonSteps sorted d e → IsSafe d → IsSafe e
  DaemonSteps-IsSafe d e (here d') k = k
  DaemonSteps-IsSafe c e (then_step c' d e' steps step) k =
      DaemonStep-IsSafe d e step (DaemonSteps-IsSafe c d steps k)

  -- From a daemon with no sync in flight, through any sequence of syncs that enter, put halves,
  -- store snapshots and leave, several of them under one key too, with sweeps between: the gate
  -- counts the running syncs, and under every key that a running sync has written the cache has a
  -- half, although no snapshot may name it yet.
  pub sweeps_spare_running :
      (db : Database) (d : Daemon)
      → DaemonSteps sorted record { gate = create_sync_gate; running = []; db = db } d
      → (d.gate.in_flight ≡ length d.running) × All (All (IsCached d.db)) d.running
  sweeps_spare_running db d steps =
      let safe =
        DaemonSteps-IsSafe record { gate = create_sync_gate; running = []; db = db } d steps
          record { counted = refl; held = tt } in
      (
        safe.counted,
        All-mono (HasRows d.db) (All (IsCached d.db))
            (All-mono (HasRow d.db) (IsCached d.db) (HasRow-IsCached d.db)) d.running safe.held,
      )
