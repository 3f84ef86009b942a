-- ===== src/Retention/Tests.antt =====
-- Sweeps of a small store, and what the theorems say of them.
use revu.Prelude.{
  ℕ, codes, filter, not, starts_with, Bool-cases, text_eq_iff, subst, inl, inr, ◌<◌, ◌≡◌, refl,
  true, false, Option, none, some, List, [], ◌∷◌, ◌⊎◌, ◌↔◌, All, Contains, Text, text_eq, length,
}
use revu.Prelude.Results.{ok}
use revu.Retention.{
  StoredSide, StoredSides, SnapshotImmutable, ImmutableRow, BlobRow, Database, Deletion, SyncGate,
  Swept, skipped, withheld, deleted, prune_immutables, prune_blobs, create_sync_gate, enter_sync,
}
use revu.Retention.Sweep.{Reclaims, prune_immutables_lem}
use revu.Retention.Closed.{IsUsable, prune_immutables-eq-ok_iff}
use revu.Retention.Gate.{
  Daemon, DaemonSteps, IsCached, entered, put, swept, here, then_step, sweeps_spare_running,
}
use revu.Store.Snapshots.{put_immutable}
use revu.Retention.Sets.{Contains-filter}
use revu.Retention.Refs.{Git, done, pin_prefix, gone, drop_pinned_refs}
use revu.Retention.Refs.Prefix.{IsUnder, drop_pinned_refs-IsKept}
use revu.Retention.Blobs.{ReclaimsBlobs, prune_blobs_lem}

-- The cached half with this key and these sides of paths.
abbrev half_with : Text → List (Option StoredSides) → ImmutableRow
half_with key index = record {
  compare_key = key;
  document = some record {
    immutable = record { compare_key = key; blob_index = some index; rest = [] };
    partial = none;
  };
}

abbrev half : ImmutableRow
half =
    half_with (b'k' ∷ [])
      (some record { base = StoredSide.absent; head = StoredSide.named (b's' ∷ []) } ∷ [])

abbrev orphan : ImmutableRow
orphan = half_with (b'o' ∷ []) []

abbrev blob : BlobRow
blob = record { sha = b's' ∷ []; content = [] }

abbrev loose : BlobRow
loose = record { sha = b't' ∷ []; content = [] }

abbrev stored : Database
stored = record {
  immutables = half ∷ orphan ∷ [];
  snapshots = [];
  local_snapshots =
      record {
        row_key = 1;
        compare_key = some (b'k' ∷ []);
        envelope = record {
          pr_number = 1;
          synced_at = [];
          partial = none;
          sync_stats = [];
          mutable = [];
        };
      }
      ∷ [];
  blobs = blob ∷ loose ∷ [];
}

abbrev swept_store : Database
swept_store = record stored { immutables = half ∷ [] }

abbrev bare : Database
bare = record stored { blobs = blob ∷ [] }

abbrev idle : SyncGate
idle = record { in_flight = 0 }

abbrev one_gone : Text → Swept
one_gone key = deleted record { count = 1; removed = key ∷ [] }

-- Keys in the order of their rows.
abbrev as_stored : List Text → List Text
as_stored keys = keys

same_members : (x : Text) (xs : List Text) → Contains x (as_stored xs) ↔ Contains x xs
same_members x xs = (λ m. m, λ m. m)

sweep_run : prune_immutables as_stored stored idle ≡ ok (one_gone (b'o' ∷ []), swept_store)
unfolding prune_immutables text_eq
sweep_run = refl

prune_immutables_lem_example :
    ((0 < idle.in_flight)
      × (one_gone (b'o' ∷ []) ≡ skipped idle.in_flight)
      × (swept_store ≡ stored))
    ⊎ ((idle.in_flight ≡ 0)
        × ((d : Deletion) × (one_gone (b'o' ∷ []) ≡ deleted d))
        × Reclaims stored swept_store)
prune_immutables_lem_example =
    prune_immutables_lem as_stored same_members idle stored swept_store (one_gone (b'o' ∷ []))
      sweep_run

prune_immutables-eq-ok_iff_example :
    ((out : Swept × Database) × (prune_immutables as_stored stored idle ≡ ok out))
    ↔ (All IsUsable stored.snapshots × All IsUsable stored.local_snapshots)
prune_immutables-eq-ok_iff_example = prune_immutables-eq-ok_iff as_stored idle stored refl

blobs_run : prune_blobs as_stored stored idle true ≡ ok (one_gone (b't' ∷ []), bare)
unfolding prune_blobs text_eq
blobs_run = refl

prune_blobs_lem_example :
    ((0 < idle.in_flight) × (one_gone (b't' ∷ []) ≡ skipped idle.in_flight) × (bare ≡ stored))
    ⊎ ((idle.in_flight ≡ 0) × (true ≡ false) × (one_gone (b't' ∷ []) ≡ withheld) × (bare ≡ stored))
    ⊎ ((idle.in_flight ≡ 0)
        × (true ≡ true)
        × ((d : Deletion) × (one_gone (b't' ∷ []) ≡ deleted d))
        × ReclaimsBlobs stored bare)
prune_blobs_lem_example =
    prune_blobs_lem as_stored same_members idle true stored bare (one_gone (b't' ∷ [])) blobs_run

-- Two syncs enter and put different halves under one key that no snapshot names; a sweep comes
-- before they leave.
abbrev fresh : Text → SnapshotImmutable
fresh rest = record { compare_key = b'f' ∷ []; blob_index = some []; rest = rest }

abbrev once : Database
once = put_immutable stored (fresh []) none

abbrev twice : Database
twice = put_immutable once (fresh (b'r' ∷ [])) none

abbrev both_in : SyncGate
both_in = enter_sync (enter_sync create_sync_gate)

abbrev daemon : SyncGate → List (List Text) → Database → Daemon
daemon gate running db = record { gate = gate; running = running; db = db }

abbrev key : Text
key = b'f' ∷ []

abbrev writing_daemon : Daemon
writing_daemon = daemon both_in ((key ∷ []) ∷ (key ∷ []) ∷ []) twice

waiting_run : prune_immutables as_stored twice both_in ≡ ok (skipped 2, twice)
unfolding prune_immutables
waiting_run = refl

writing-DaemonSteps : DaemonSteps as_stored (daemon create_sync_gate [] stored) writing_daemon
writing-DaemonSteps =
    then_step _ _ _
      (then_step _ _ _
        (then_step _ _ _
          (then_step _ _ _
            (then_step _ _ _ (here (daemon create_sync_gate [] stored))
              (entered (daemon create_sync_gate [] stored)))
            (entered (daemon (enter_sync create_sync_gate) ([] ∷ []) stored)))
          (put both_in [] ([] ∷ []) [] stored (fresh []) none))
        (put both_in ((key ∷ []) ∷ []) [] [] once (fresh (b'r' ∷ [])) none))
      (swept writing_daemon (skipped 2) twice waiting_run)

sweeps_spare_running_example :
    (writing_daemon.gate.in_flight ≡ length writing_daemon.running)
    × All (All (IsCached writing_daemon.db)) writing_daemon.running
sweeps_spare_running_example =
    sweeps_spare_running as_stored same_members stored writing_daemon writing-DaemonSteps

-- A repository with a branch and one pin of the review 1000000001, and a git that lists that pin.
abbrev main_branch : Text
main_branch = codes "refs/heads/m"

abbrev digits : ℕ → Text
digits n = codes "1000000001"

abbrev review_prefix : Text
review_prefix = pin_prefix digits 1000000001

abbrev repository : List Text
repository = main_branch ∷ codes "refs/revu/reviews/1000000001/a" ∷ []

abbrev git : Git (List Text)
git = record {
  list_refs = λ prefix refs. (done (codes "refs/revu/reviews/1000000001/a"), refs);
  delete_ref = λ ref refs. (done [], filter (λ x. not (text_eq ref x)) refs);
}

main_is_outside : starts_with main_branch review_prefix ≡ false
unfolding starts_with
main_is_outside = refl

delete_ref_keeps_main :
    (ref : Text) (refs : List Text)
    → starts_with ref review_prefix ≡ true
    → Contains main_branch refs
    → Contains main_branch (git.delete_ref ref refs).1
delete_ref_keeps_main ref refs under m =
    let differs : text_eq ref main_branch ≡ false = elim (Bool-cases (text_eq ref main_branch)) [
      | inl e ↦
          let same = (text_eq_iff ref main_branch).0 e in
          cc (subst (λ r. starts_with r review_prefix ≡ true) same under, main_is_outside)
      | inr e ↦ e
    ] in
    (Contains-filter (λ x. not (text_eq ref x)) main_branch refs).1 (m, rw differs refl)

drop_pinned_refs-IsKept_example :
    All (IsUnder review_prefix) (gone (drop_pinned_refs git digits 1000000001 repository).0)
    × Contains main_branch (drop_pinned_refs git digits 1000000001 repository).1
drop_pinned_refs-IsKept_example =
    drop_pinned_refs-IsKept git digits (Contains main_branch) 1000000001 (λ prefix refs m. m)
      delete_ref_keeps_main repository (inl refl)
