-- ===== src/Store/Snapshots/Refusals.antt =====
-- When a snapshot cannot be stored.
use revu.Prelude.{
  ◌≡◌, ◌≢◌, refl, sym, ap, ◌∙◌, inl, inr, ◌⊎◌, ◌↔◌, Option, none, some, Option-cases, Text, arith,
}
use revu.Prelude.Results.{Result, ok, err}
use revu.Retention.{keyed, immutables_table, Unreadable, Json, ImmutableRow, Database}
use revu.Store.Snapshots.{
  Snapshot, SnapshotTable, half_at, own_immutable_partial, write_snapshot_rows,
}
use revu.Store.Snapshots.RoundTrip.{written}

err_inj : {A E : Type 0} {a b : E} (e : ◌≡◌ {A = Result E A} (err a) (err b)) → a ≡ b
err_inj e = cc

own_immutable_partial-broken :
    (db : Database) (key : Text) (half : ImmutableRow)
    → half_at key db ≡ some half
    → half.document ≡ none
    → own_immutable_partial db key ≡ err record { table = immutables_table; row_key = keyed key }
unfolding own_immutable_partial
own_immutable_partial-broken db key half there broken =
    rw (own_immutable_partial, there, broken) refl

-- Where no half stands in the way, the incompleteness to keep is found.
abbrev HasPartial : Database → Text → Type 0
HasPartial db key = (partial : Option Json) × (own_immutable_partial db key ≡ ok partial)

own_immutable_partial-HasPartial :
    (db : Database) (key : Text)
    → ((half : ImmutableRow) → half_at key db ≡ some half → half.document ≢ none)
    → HasPartial db key
unfolding own_immutable_partial
own_immutable_partial-HasPartial db key whole = elim (Option-cases (half_at key db)) [
  | inl absent ↦ (none, rw (own_immutable_partial, absent) refl)
  | inr (half, there) ↦ elim (Option-cases half.document) [
    | inl broken ↦ absurd (whole half there broken)
    | inr (stored, e) ↦ (stored.partial, rw (own_immutable_partial, there, e) refl)
  ]
]

module _ (t : SnapshotTable) (db : Database) (s : Snapshot) where
  -- A snapshot whose half does not stand in the store, or parses, is stored.
  pub write_snapshot_rows_total :
      ((half : ImmutableRow)
        → half_at s.immutable.compare_key db ≡ some half
        → half.document ≢ none)
      → (db' : Database) × (write_snapshot_rows t db s ≡ ok db')
  unfolding write_snapshot_rows
  write_snapshot_rows_total whole =
      let (partial, own) = own_immutable_partial-HasPartial db s.immutable.compare_key whole in
      (written t db s partial, rw (write_snapshot_rows, own) refl)

  abbrev IsBroken : Type 0
  IsBroken =
      (half : ImmutableRow) × (half_at s.immutable.compare_key db ≡ some half)
      × (half.document ≡ none)

  broken_or_whole :
      IsBroken
      ⊎ ((half : ImmutableRow)
          → half_at s.immutable.compare_key db ≡ some half
          → half.document ≢ none)
  broken_or_whole = elim (Option-cases (half_at s.immutable.compare_key db)) [
    | inl absent ↦ inr (λ half there. absurd (ground (arith, there)))
    | inr (half, there) ↦ elim (Option-cases half.document) [
      | inl broken ↦ inl (half, there, broken)
      | inr (stored, whole) ↦ inr (λ other at broken. let same : half ≡ other = cc in cc)
    ]
  ]

  broken-err :
      IsBroken
      → write_snapshot_rows t db s
        ≡ err record { table = immutables_table; row_key = keyed s.immutable.compare_key }
  unfolding write_snapshot_rows
  broken-err (half, there, broken) =
      let own = own_immutable_partial-broken db s.immutable.compare_key half there broken in
      rw (write_snapshot_rows, own) refl

  -- Storing a snapshot, under a pull request or a local review, fails exactly when the half of its
  -- compare key is in the store and does not parse, and the error then names that half.
  pub write_snapshot_rows-eq-err_iff :
      (e : Unreadable)
      → (write_snapshot_rows t db s ≡ err e) ↔ (
          ((half : ImmutableRow) × (half_at s.immutable.compare_key db ≡ some half)
            × (half.document ≡ none))
          × (e ≡ record { table = immutables_table; row_key = keyed s.immutable.compare_key }))
  write_snapshot_rows-eq-err_iff e = elim broken_or_whole [
    | inl broken ↦ (
      λ h. (broken, err_inj (sym h ∙ broken-err broken)),
      λ (_, same). broken-err broken ∙ ap err (sym same),
    )
    | inr whole ↦ (
      λ h. let (db', done) = write_snapshot_rows_total whole in cc,
      λ ((half, there, broken), _). absurd (whole half there broken),
    )
  ]
