-- ===== src/State/Leases/Fencing.antt =====
-- The fence keeps a holder out that has lost its lease to another.
use milhouse_oss.Prelude.{
  ◌<◌, ◌≡◌, ◌≢◌, inl, inr, false, some, List, [], ◌∷◌, arith, text_eq, text_eq_iff, text_eq_refl,
  Bool-cases, Option-cases,
}
use milhouse_oss.Python.Value.{Value}
use milhouse_oss.Python.Outcome.{Outcome-cases, ok}
use milhouse_oss.State.Schema.{Lease, Tables}
use milhouse_oss.State.Database.{ControlDatabase, next_fault}
use milhouse_oss.State.Leases.{current, acquire_lease, renew_lease, require_current_lease}
use milhouse_oss.State.Leases.Acquire.{Acquired, acquire_lease_inv}
use milhouse_oss.State.Leases.Atomic.{acquire_lease-IsAtomic, renew_lease-IsAtomic}
use milhouse_oss.State.Leases.Renew.{Renewed, renew_lease_inv}
use milhouse_oss.State.Leases.Rows.{
  extended, current-put_lease_self, current-put_lease_ne, current-extend_lease_self,
  current-extend_lease_ne,
}

-- The row of `lease` is still its own.
pub record IsCurrent (lease r : Lease) (t : Tables) : Type 0 where
  pub found : current lease.name t ≡ some r
  pub same_holder : r.holder ≡ lease.holder
  pub same_fence : r.fence ≡ lease.fence

-- A row of the same name has a higher fence.
pub record IsOutfenced (lease r : Lease) (t : Tables) : Type 0 where
  pub found : current lease.name t ≡ some r
  pub outrun : lease.fence < r.fence

-- A call of the other two operations on a database, and one that follows.
pub data Call : Type 0 where
  acquire renew : Value → Value → Value → Value → Call

pub run : Call → ControlDatabase → ControlDatabase
run (acquire n h now ttl) db = (acquire_lease n h now ttl db).1
run (renew n h now ttl) db = (renew_lease n h now ttl db).1

pub run_all : List Call → ControlDatabase → ControlDatabase
unfolding run
run_all [] db = db
run_all (c ∷ cs) db = run_all cs (run c db)

-- `require_current_lease` passes only the current owner.
pub require_current_lease_sound :
    (lease : Lease) (db : ControlDatabase)
    → (require_current_lease lease db).0 ≡ ok tt
    → (r : Lease) × IsCurrent lease r db.tables
unfolding require_current_lease
require_current_lease_sound lease db h = elim (Option-cases (current lease.name db.tables)) [
  | inl absent ↦ absurd (ground arith)
  | inr (r, e) ↦ (r, ground (arith, text_eq_iff r.holder lease.holder))
]

abbrev Later : Lease → Tables → Type 0
Later lease t = (q : Lease) × IsOutfenced lease q t

module _ {before after : Tables} (lease : Lease) (l : Lease) {r : Lease} where
  -- An acquisition of any name by any holder keeps or raises the fence.
  Acquired-Later : Acquired before after l → IsOutfenced lease r before → Later lease after
  Acquired-Later a f = elim (Bool-cases (text_eq l.name lease.name)) [
    | inl same ↦
        let e = (text_eq_iff l.name lease.name).0 same in
        (l, ground (arith, e, current-put_lease_self l before, text_eq_iff r.holder l.holder))
    | inr apart ↦
        (r, ground (arith, text_eq_iff l.name lease.name, current-put_lease_ne lease.name l before))
  ]

  -- A renewal keeps it.
  Renewed-Later :
      {q : Lease} → Renewed before after l q → IsOutfenced lease r before → Later lease after
  Renewed-Later {q} a f = elim (Bool-cases (text_eq l.name lease.name)) [
    | inl same ↦
        let e = (text_eq_iff l.name lease.name).0 same in
        (
          extended l.acquired_at l.expires_at r,
          ground (
            arith,
            e,
            current-extend_lease_self l.name l.acquired_at l.expires_at before {r = r},
          ),
        )
    | inr apart ↦ (
      r,
      ground (
        arith,
        text_eq_iff l.name lease.name,
        current-extend_lease_ne lease.name l.name l.acquired_at l.expires_at before,
      ),
    )
  ]

  -- A takeover of a current lease by another holder raises it.
  takeover-Later :
      Acquired before after l
      → IsCurrent lease r before
      → l.name ≡ lease.name
      → l.holder ≢ lease.holder
      → Later lease after
  takeover-Later a c e ne =
      (l, ground (arith, current-put_lease_self l before, text_eq_iff r.holder l.holder))

run-Later :
    (lease : Lease) (c : Call) (db : ControlDatabase)
    → Later lease db.tables
    → Later lease (run c db).tables
unfolding run
run-Later lease (acquire n h now ttl) db (q, f) =
    elim (Outcome-cases (acquire_lease n h now ttl db).0) [
      | inl (l, e) ↦ Acquired-Later lease l (acquire_lease_inv n h now ttl db e).3 f
      | inr (d, e) ↦ (q, rw ((acquire_lease-IsAtomic n h now ttl).unchanged db d e) f)
    ]
run-Later lease (renew n h now ttl) db (q, f) =
    elim (Outcome-cases (renew_lease n h now ttl db).0) [
      | inl (l, e) ↦ Renewed-Later lease l (renew_lease_inv n h now ttl db e).4 f
      | inr (d, e) ↦ (q, rw ((renew_lease-IsAtomic n h now ttl).unchanged db d e) f)
    ]

run_all-Later :
    (lease : Lease) (cs : List Call) (db : ControlDatabase)
    → Later lease db.tables
    → Later lease (run_all cs db).tables
unfolding run_all
run_all-Later lease [] db f = f
run_all-Later lease (c ∷ cs) db f = run_all-Later lease cs (run c db) (run-Later lease c db f)

Later-refused :
    (lease : Lease) (db : ControlDatabase)
    → Later lease db.tables
    → (require_current_lease lease db).0 ≢ ok tt
Later-refused lease db (q, f) h =
    let (r, c) = require_current_lease_sound lease db h in ground arith

-- When another holder has acquired the name of a lease that was current, that lease is refused,
-- also after any further acquisitions and renewals by anyone, failing ones included, and whatever
-- faults SQLite raises.
pub stale_lease_refused :
    (lease r : Lease) (name holder now ttl : Value) (db : ControlDatabase) (cs : List Call)
    {l : Lease}
    → IsCurrent lease r db.tables
    → (acquire_lease name holder now ttl db).0 ≡ ok l
    → l.name ≡ lease.name
    → l.holder ≢ lease.holder
    → (require_current_lease lease (run_all cs (acquire_lease name holder now ttl db).1)).0 ≢ ok tt
stale_lease_refused lease r name holder now ttl db cs {l} c h e ne = Later-refused lease _ (
    run_all-Later lease cs _
      (takeover-Later lease l (acquire_lease_inv name holder now ttl db h).3 c e ne))

-- A lease just acquired is current, as long as SQLite answers.
pub acquired_lease_passes :
    (name holder now ttl : Value) (db : ControlDatabase) {l : Lease}
    → (acquire_lease name holder now ttl db).0 ≡ ok l
    → next_fault (acquire_lease name holder now ttl db).1.faults ≡ false
    → (require_current_lease l (acquire_lease name holder now ttl db).1).0 ≡ ok tt
unfolding require_current_lease
acquired_lease_passes name holder now ttl db {l} h live =
    let a = (acquire_lease_inv name holder now ttl db h).3 in
    ground (arith, a.encoded, a.stored, current-put_lease_self l db.tables, text_eq_refl l.holder)
