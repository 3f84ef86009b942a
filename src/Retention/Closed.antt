-- ===== src/Retention/Closed.antt =====
-- pruneImmutables when the set of keys in use is not known.
use revu.Prelude.{
  zero, ◌≡◌, refl, subst, sym, inl, inr, some, Option-cases, List, [], ◌∷◌, All, Text, arith, ◌↔◌,
}
use revu.Prelude.Results.{ok, >>=-eq-ok, >>=-ok}
use revu.Retention.Sweep.{unneeded}
use revu.Retention.{
  Table, snapshots_table, local_snapshots_table, EnvelopeRow, Database, add_key, usable,
  collect_compare_keys, live_compare_keys, delete_immutables, SyncGate, Swept, Deletion, deleted,
  prune_immutables,
}

-- The envelope names a compare key that is not empty.
abbrev pub IsUsable : EnvelopeRow → Type 0
IsUsable r = (k : Text) × (usable r.compare_key ≡ some k)

collect_compare_keys_iff :
    (t : Table) (rs : List EnvelopeRow) (into : List Text)
    → ((keys : List Text) × (collect_compare_keys t rs into ≡ ok keys)) ↔ All IsUsable rs
unfolding collect_compare_keys
collect_compare_keys_iff t [] into = (λ h. tt, λ h. (into, refl))
collect_compare_keys_iff t (r ∷ rs) into = elim (Option-cases (usable r.compare_key)) [
  | inl e ↦ (λ (keys, h). absurd (ground (arith, h)), λ ((k, h), hs). absurd (ground (arith, h)))
  | inr (k, e) ↦
      let rest = collect_compare_keys_iff t rs (add_key k into) in
      (
        λ (keys, h). ((k, e), rest.0 (keys, ground (arith, h))),
        λ (h, hs). let (keys, done) = rest.1 hs in (keys, rw (collect_compare_keys, e) done),
      )
]

live_compare_keys_iff :
    (db : Database)
    → ((keys : List Text) × (live_compare_keys db ≡ ok keys))
      ↔ (All IsUsable db.snapshots × All IsUsable db.local_snapshots)
unfolding live_compare_keys
live_compare_keys_iff db = (
  λ (keys, h).
      let (into, first, second) =
        >>=-eq-ok (collect_compare_keys snapshots_table db.snapshots [])
          (collect_compare_keys local_snapshots_table db.local_snapshots) h in
      (
        (collect_compare_keys_iff snapshots_table db.snapshots []).0 (into, first),
        (collect_compare_keys_iff local_snapshots_table db.local_snapshots into).0 (keys, second),
      ),
  λ (pulls, locals).
      let (into, first) = (collect_compare_keys_iff snapshots_table db.snapshots []).1 pulls in
      let (keys, second) =
        (collect_compare_keys_iff local_snapshots_table db.local_snapshots into).1 locals in
      (keys, rw first second),
)

delete_immutables_total :
    (db : Database) (keys live : List Text)
    → live_compare_keys db ≡ ok live
    → (out : Deletion × Database) × (delete_immutables db keys ≡ ok out)
unfolding delete_immutables
delete_immutables_total db keys live read = (_, >>=-ok (live_compare_keys db) _ read refl)

module _ (sorted : List Text → List Text) where
  idle_iff :
      (db : Database)
      → ((out : Swept × Database) × (prune_immutables sorted db record { in_flight = zero }
            ≡ ok out))
        ↔ ((keys : List Text) × (live_compare_keys db ≡ ok keys))
  unfolding prune_immutables delete_immutables
  idle_iff db = (
    λ (out, h). let (keys, read, rest) = >>=-eq-ok (live_compare_keys db) _ h in (keys, read),
    λ (keys, read).
        let ((d, db'), done) = delete_immutables_total db (unneeded sorted db keys) keys read in
        (
          (deleted d, db'),
          >>=-ok (live_compare_keys db) _ read
              (>>=-ok (delete_immutables db (unneeded sorted db keys)) _ done refl),
        ),
  )

  -- With no sync in flight, a sweep of the cached halves returns exactly when every snapshot of
  -- either table names a compare key that can be used; otherwise it refuses.
  pub prune_immutables-eq-ok_iff :
      (gate : SyncGate) (db : Database)
      → gate.in_flight ≡ 0
      → ((out : Swept × Database) × (prune_immutables sorted db gate ≡ ok out))
        ↔ (All IsUsable db.snapshots × All IsUsable db.local_snapshots)
  prune_immutables-eq-ok_iff gate db idle =
      subst
        (λ n.
          ((out : Swept × Database) × (prune_immutables sorted db record { in_flight = n }
              ≡ ok out))
          ↔ (All IsUsable db.snapshots × All IsUsable db.local_snapshots))
        (sym idle)
        (let a = idle_iff db in
          let b = live_compare_keys_iff db in (λ h. b.0 (a.0 h), λ h. a.1 (b.1 h)))
