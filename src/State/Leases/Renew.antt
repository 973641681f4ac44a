-- ===== src/State/Leases/Renew.antt =====
-- `renew_lease` against its contract.
use milhouse_oss.Prelude.{
  ℕ, ◌∙◌, ◌≡◌, inl, inr, Option-cases, true, some, arith, Text, text_eq_iff, text_lt,
}
use milhouse_oss.Python.Value.{Value, str}
use milhouse_oss.Python.Outcome.{Outcome-cases, ok}
use milhouse_oss.Core.Clock.{format_timestamp}
use milhouse_oss.State.Errors.{StateCode}
use milhouse_oss.State.Schema.{Lease, Tables}
use milhouse_oss.State.Validate.{validate_identifier, validate_identifier-str}
use milhouse_oss.State.Database.{ControlDatabase}
use milhouse_oss.State.Database.Atomic.{begun, transaction-ok, lift-bind-ok}
use milhouse_oss.State.Leases.{
  validate_ttl, stamps, stamps-now, current, extend_lease, renew_rows, renew_valid, renew_lease,
}

-- What a renewal has done: the row `r` was this holder's and alive, and only its times have moved.
pub record Renewed (before after : Tables) (lease r : Lease) : Type 0 where
  pub found : current lease.name before ≡ some r
  pub same_holder : r.holder ≡ lease.holder
  pub same_fence : r.fence ≡ lease.fence
  pub alive : text_lt lease.acquired_at r.expires_at ≡ true
  pub stored : after ≡ extend_lease lease.name lease.acquired_at lease.expires_at before

renew_rows-Renewed :
    (name holder now_stamp expires : Text) (db : ControlDatabase) {lease : Lease}
    → (renew_rows name holder now_stamp expires now_stamp db).0 ≡ ok lease
    → (r : Lease) × (lease.name ≡ name)
      × (lease.holder ≡ holder)
      × (lease.acquired_at ≡ now_stamp)
      × Renewed db.tables (renew_rows name holder now_stamp expires now_stamp db).1.tables lease r
unfolding renew_rows
renew_rows-Renewed name holder now_stamp expires db {lease} h =
    elim (Option-cases (current name db.tables)) [
      | inl absent ↦ absurd (ground arith)
      | inr (r, e) ↦
          (r, ground arith, ground arith, ground arith, ground (arith, text_eq_iff r.holder holder))
    ]

module _ (name holder : Text) (now : Value) (ttl : ℕ) (db : ControlDatabase) where
  renew_valid-Renewed :
      {lease : Lease}
      → (renew_valid name holder now ttl db).0 ≡ ok lease
      → (r : Lease) × (lease.name ≡ name)
        × (lease.holder ≡ holder)
        × (format_timestamp {C = StateCode} now ≡ ok lease.acquired_at)
        × Renewed db.tables (renew_valid name holder now ttl db).1.tables lease r
  unfolding renew_valid
  renew_valid-Renewed {lease} h = elim (Outcome-cases (stamps now ttl)) [
    | inr (e, es) ↦ absurd (ground arith)
    | inl ((a, x), es) ↦
        let ef = stamps-now now ttl {a = a} {x = x} es in
        let (hb, eb) : ((renew_rows name holder a x a (begun db)).0 ≡ ok lease)
            × ((renew_valid name holder now ttl db).1.tables
                ≡ (renew_rows name holder a x a (begun db)).1.tables) =
          ground (arith, ef, es, transaction-ok (renew_rows name holder a x a) db {a = lease}) in
        let (r, en, eh, ea, hr) =
          renew_rows-Renewed name holder a x (begun db) {lease = lease} hb in
        (r, en, eh, ground (arith, ef, ea), ground (arith, eb, hr))
  ]

pub renew_lease_inv :
    (name_value holder_value now ttl_value : Value) (db : ControlDatabase) {lease : Lease}
    → (renew_lease name_value holder_value now ttl_value db).0 ≡ ok lease
    → (r : Lease) × (name_value ≡ str lease.name)
      × (holder_value ≡ str lease.holder)
      × (format_timestamp {C = StateCode} now ≡ ok lease.acquired_at)
      × Renewed db.tables (renew_lease name_value holder_value now ttl_value db).1.tables lease r
unfolding renew_lease
renew_lease_inv nv hv now tv db {lease} h =
    let (name, en, e1, h1) = lift-bind-ok (validate_identifier nv StateCode.lease_name) _ db h in
    let (holder, eh, e2, h2) =
      lift-bind-ok (validate_identifier hv StateCode.lease_holder) _ db h1 in
    let (ttl, et, e3, h3) = lift-bind-ok (validate_ttl tv) _ db h2 in
    let (r, rn, rh, rt, renewed) = renew_valid-Renewed name holder now ttl db h3 in
    let given_name = validate_identifier-str nv StateCode.lease_name en in
    let given_holder = validate_identifier-str hv StateCode.lease_holder eh in
    (r, ground arith, ground arith, rt, ground (arith, e1 ∙ e2 ∙ e3))
