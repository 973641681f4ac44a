-- ===== src/State/Leases/Acquire.antt =====
-- `acquire_lease` against its contract: who gets a lease, with which fence, and what it writes.
use milhouse_oss.Prelude.{
  ℕ, ◌+◌, ◌≡◌, ◌∙◌, ◌⊎◌, inl, inr, Option-cases, true, false, Option, none, some, arith,
  if◌then◌else◌, Text, text_eq, text_eq_iff, text_lt,
}
use milhouse_oss.Python.Value.{Value, str}
use milhouse_oss.Python.Outcome.{Outcome-cases, ok}
use milhouse_oss.Core.Clock.{format_timestamp}
use milhouse_oss.State.Errors.{StateCode}
use milhouse_oss.State.Schema.{Lease, Tables}
use milhouse_oss.State.Database.{ControlDatabase, is_encodable}
use milhouse_oss.State.Database.Atomic.{begun, transaction-ok, lift-bind-ok}
use milhouse_oss.State.Validate.{validate_identifier, validate_identifier-str}
use milhouse_oss.State.Leases.{
  current, put_lease, validate_ttl, stamps, stamps-now, acquire_rows, acquire_valid, acquire_lease,
}

-- The fence of a new holding: 1 for a new name, kept by its holder, one more after a takeover.
abbrev pub due_fence : Option Lease → Text → ℕ
due_fence none holder = 1
due_fence (some r) holder = if text_eq r.holder holder then r.fence else r.fence + 1

-- Nobody else holds the name at the instant of this text.
abbrev pub IsFree : Option Lease → Text → Text → Type 0
IsFree none holder now_stamp = Unit
IsFree (some r) holder now_stamp = (r.holder ≡ holder) ⊎ (text_lt now_stamp r.expires_at ≡ false)

-- What an acquisition has done.
pub record Acquired (before after : Tables) (lease : Lease) : Type 0 where
  pub fenced : lease.fence ≡ due_fence (current lease.name before) lease.holder
  pub was_free : IsFree (current lease.name before) lease.holder lease.acquired_at
  pub encoded : is_encodable lease.name ≡ true
  pub stored : after ≡ put_lease lease before

acquire_rows-Acquired :
    (name holder now_stamp expires : Text) (db : ControlDatabase) {lease : Lease}
    → (acquire_rows name holder now_stamp expires now_stamp db).0 ≡ ok lease
    → (lease.name ≡ name)
      × (lease.holder ≡ holder)
      × (lease.acquired_at ≡ now_stamp)
      × (lease.expires_at ≡ expires)
      × Acquired db.tables (acquire_rows name holder now_stamp expires now_stamp db).1.tables lease
unfolding acquire_rows
acquire_rows-Acquired name holder now_stamp expires db {lease} h =
    elim (Option-cases (current name db.tables)) [
      | inl absent ↦ ground arith
      | inr (r, e) ↦ ground (arith, text_eq_iff r.holder holder)
    ]

module _ (name holder : Text) (now : Value) (ttl : ℕ) (db : ControlDatabase) where
  acquire_valid-Acquired :
      {lease : Lease}
      → (acquire_valid name holder now ttl db).0 ≡ ok lease
      → (lease.name ≡ name)
        × (lease.holder ≡ holder)
        × (format_timestamp {C = StateCode} now ≡ ok lease.acquired_at)
        × Acquired db.tables (acquire_valid name holder now ttl db).1.tables lease
  unfolding acquire_valid
  acquire_valid-Acquired {lease} h = elim (Outcome-cases (stamps now ttl)) [
    | inr (e, es) ↦ ground arith
    | inl ((a, x), es) ↦ ground (
      arith,
      stamps-now now ttl {a = a} {x = x} es,
      transaction-ok (acquire_rows name holder a x a) db {a = lease},
      acquire_rows-Acquired name holder a x (begun db) {lease = lease},
    )
  ]

pub acquire_lease_inv :
    (name_value holder_value now ttl_value : Value) (db : ControlDatabase) {lease : Lease}
    → (acquire_lease name_value holder_value now ttl_value db).0 ≡ ok lease
    → (name_value ≡ str lease.name)
      × (holder_value ≡ str lease.holder)
      × (format_timestamp {C = StateCode} now ≡ ok lease.acquired_at)
      × Acquired db.tables (acquire_lease name_value holder_value now ttl_value db).1.tables lease
unfolding acquire_lease
acquire_lease_inv nv hv now tv db {lease} h =
    let (name, en, e1, h1) = lift-bind-ok (validate_identifier nv StateCode.lease_name) _ db h in
    let (holder, eh, e2, h2) =
      lift-bind-ok (validate_identifier hv StateCode.lease_holder) _ db h1 in
    let (ttl, et, e3, h3) = lift-bind-ok (validate_ttl tv) _ db h2 in
    ground (
      arith,
      e1 ∙ e2 ∙ e3,
      validate_identifier-str nv StateCode.lease_name en,
      validate_identifier-str hv StateCode.lease_holder eh,
      acquire_valid-Acquired name holder now ttl db h3,
    )
