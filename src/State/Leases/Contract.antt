-- ===== src/State/Leases/Contract.antt =====
-- What a caller of `acquire_lease` can rely on, on every branch.
use milhouse_oss.Prelude.{
  ◌≡◌, ◌≢◌, inl, inr, true, false, none, some, arith, Text, text_eq_iff, text_lt,
}
use milhouse_oss.Python.Value.{Value, str}
use milhouse_oss.Python.Outcome.{Outcome-cases, ok}
use milhouse_oss.Core.Clock.{format_timestamp}
use milhouse_oss.State.Errors.{StateCode}
use milhouse_oss.State.Schema.{Lease}
use milhouse_oss.State.Database.{ControlDatabase, next_fault}
use milhouse_oss.State.Leases.{current, acquire_lease, require_current_lease}
use milhouse_oss.State.Leases.Acquire.{Acquired, acquire_lease_inv}
use milhouse_oss.State.Leases.Atomic.{acquire_lease-IsAtomic}
use milhouse_oss.State.Leases.Rows.{current-put_lease_self}

-- While another holder's lease is alive at the caller's instant, an acquisition returns no lease
-- and changes no table, whatever faults SQLite raises.
pub live_lease_excludes :
    (name holder now_stamp : Text) (now ttl : Value) (db : ControlDatabase) {r : Lease}
    → current name db.tables ≡ some r
    → r.holder ≢ holder
    → format_timestamp {C = StateCode} now ≡ ok now_stamp
    → text_lt now_stamp r.expires_at ≡ true
    → let (result, after) = acquire_lease (str name) (str holder) now ttl db in
      ((l : Lease) → result ≢ ok l) × (after.tables ≡ db.tables)
live_lease_excludes name holder now_stamp now ttl db {r} e ne en alive =
    elim (Outcome-cases (acquire_lease (str name) (str holder) now ttl db).0) [
      | inl (l, h) ↦ absurd (refuted l (acquire_lease_inv (str name) (str holder) now ttl db h))
      | inr (d, h) ↦ (
        λ l p. cc (h, p),
        (acquire_lease-IsAtomic (str name) (str holder) now ttl).unchanged db d h,
      )
    ]
  where
    refuted :
        (l : Lease)
        → (str name ≡ str l.name)
          × (str holder ≡ str l.holder)
          × (format_timestamp {C = StateCode} now ≡ ok l.acquired_at)
          × Acquired db.tables (acquire_lease (str name) (str holder) now ttl db).1.tables l
        → ⊥
    refuted l (a, b, c, d) = ground (arith, d.was_free)

-- A name with no row starts at fence 1.
pub fence_restarts :
    (name holder now ttl : Value) (db : ControlDatabase) {l : Lease}
    → (acquire_lease name holder now ttl db).0 ≡ ok l
    → current l.name db.tables ≡ none
    → l.fence ≡ 1
fence_restarts name holder now ttl db {l} h absent =
    let a = (acquire_lease_inv name holder now ttl db h).3 in ground (arith, a.fenced)

-- When a name has no row, as after a release, and a holder acquires it, any lease object of that
-- holder and name with fence 1 passes, an older one too, as long as SQLite answers.
pub released_lease_revives :
    (lease : Lease) (name holder now ttl : Value) (db : ControlDatabase) {l : Lease}
    → current lease.name db.tables ≡ none
    → lease.fence ≡ 1
    → (acquire_lease name holder now ttl db).0 ≡ ok l
    → l.name ≡ lease.name
    → l.holder ≡ lease.holder
    → next_fault (acquire_lease name holder now ttl db).1.faults ≡ false
    → (require_current_lease lease (acquire_lease name holder now ttl db).1).0 ≡ ok tt
unfolding require_current_lease
released_lease_revives lease name holder now ttl db {l} absent one h en eh live =
    let a = (acquire_lease_inv name holder now ttl db h).3 in
    ground (
      arith,
      a.fenced,
      a.encoded,
      a.stored,
      current-put_lease_self l db.tables,
      text_eq_iff l.holder lease.holder,
    )
