-- ===== src/State/Leases.antt =====
-- src/milhouse/state/leases.py: named leases with fencing.
pub mod Contract
pub mod Rows
pub mod Fencing
pub mod Release
pub mod Renew
pub mod Atomic
pub mod Acquire
use milhouse_oss.Prelude.{
  ℕ, ◌+◌, ◌*◌, ◌^◌, ◌≡◌, refl, Bool, true, false, not, ◌&&◌, ◌||◌, Option, none, some, ltb, leb,
  ◌==◌, if◌then◌else◌, pos, Text, text_eq, text_lt, arith,
}
use milhouse_oss.Python.Datetime.{Datetime, plus_seconds}
use milhouse_oss.Python.Value.{Value, int, instant}
use milhouse_oss.Python.Outcome.{Outcome, ok, raised, fault, overflow_error}
use milhouse_oss.Python.Outcome
use milhouse_oss.Core.Clock.{format_timestamp}
use milhouse_oss.State.Errors.{StateCode}
use milhouse_oss.State.Schema.{Lease, Tables}
use milhouse_oss.State.Table.{find, upsert, update, delete, row_count}
use milhouse_oss.State.Validate.{validate_identifier}
use milhouse_oss.State.Database.{
  Action, ◌>>=◌, ◌>>◌, pure, lift, select, change, execute, bind_integer, bind_text, require,
  transaction, attempt, attempt_sqlite,
}

-- `_MAX_TTL_SECONDS`, ten years.
abbrev pub max_ttl_seconds : ℕ
max_ttl_seconds = 3650 * 86400

unfoldable pub validate_ttl : Value → Outcome StateCode ℕ
validate_ttl (int (pos n)) =
    if ltb 0 n && leb n max_ttl_seconds then ok n else raised (fault StateCode.lease_ttl)
validate_ttl _ = raised (fault StateCode.lease_ttl)

format_later : Option Datetime → Outcome StateCode Text
format_later none = raised overflow_error
format_later (some t) = format_timestamp (instant t)

-- `now + timedelta(seconds=ttl_seconds)`; a value that is no datetime has been refused before.
expiry : Value → ℕ → Outcome StateCode Text
unfolding format_later
expiry (instant t) ttl = format_later (plus_seconds t ttl)
expiry _ ttl = raised overflow_error

-- `_stamps`
unfoldable pub stamps : Value → ℕ → Outcome StateCode (Text × Text)
unfolding expiry
stamps now ttl =
    Outcome.◌>>=◌ (format_timestamp now)
      λ acquired. Outcome.◌>>=◌ (expiry now ttl) λ expires. ok (acquired, expires)

-- The primary key.
abbrev pub is_lease : Text → Lease → Bool
is_lease name lease = text_eq lease.name name

-- `_current`
unfoldable pub current : Text → Tables → Option Lease
current name t = find (is_lease name) t.leases

-- The fence of an acquisition, or the refusal of one.
unfoldable pub grant : Option Lease → Text → Text → Action ℕ
grant none holder now_stamp = pure 1
grant (some existing) holder now_stamp =
    if not (text_eq existing.holder holder) && text_lt now_stamp existing.expires_at
    then lift (raised (fault StateCode.lease_held))
    else pure (if text_eq existing.holder holder then existing.fence else existing.fence + 1)

unfoldable pub put_lease : Lease → Tables → Tables
put_lease lease t = record t { leases = upsert (is_lease lease.name) lease t.leases }

-- The body of the transaction of `acquire_lease`.
unfoldable pub acquire_rows : Text → Text → Text → Text → Text → Action Lease
unfolding grant put_lease execute bind_integer bind_text
acquire_rows name holder acquired expires now_stamp = do
  bind_text name
  existing ← select (current name)
  fence ← grant existing holder now_stamp
  bind_text holder
  bind_integer fence
  let lease : Lease = record {
    name = name;
    holder = holder;
    fence = fence;
    acquired_at = acquired;
    expires_at = expires;
  }
  change (put_lease lease)
  pure lease

-- The `try` block of `acquire_lease`, over tested arguments.
unfoldable pub acquire_valid : Text → Text → Value → ℕ → Action Lease
unfolding acquire_rows stamps transaction
acquire_valid name holder now ttl = attempt StateCode.lease (do
  (acquired, expires) ← lift (stamps now ttl)
  now_stamp ← lift (format_timestamp now)
  transaction (acquire_rows name holder acquired expires now_stamp))

unfoldable pub acquire_lease : Value → Value → Value → Value → Action Lease
unfolding acquire_valid validate_identifier validate_ttl
acquire_lease name_value holder_value now ttl_value = do
  name ← lift (validate_identifier name_value StateCode.lease_name)
  holder ← lift (validate_identifier holder_value StateCode.lease_holder)
  ttl ← lift (validate_ttl ttl_value)
  acquire_valid name holder now ttl

-- `UPDATE _leases SET acquired_at, expires_at WHERE name`
unfoldable pub extend_lease : Text → Text → Text → Tables → Tables
extend_lease name acquired expires t = record t {
  leases =
      update (is_lease name) (λ r. record r { acquired_at = acquired; expires_at = expires })
        t.leases;
}

-- The body of the transaction of `renew_lease`, once the row is read.
unfoldable pub renew_held : Text → Text → Text → Text → Text → Option Lease → Action Lease
unfolding extend_lease execute
renew_held name holder acquired expires now_stamp none = lift (raised (fault StateCode.lease_lost))
renew_held name holder acquired expires now_stamp (some existing) =
    if not (text_eq existing.holder holder) || not (text_lt now_stamp existing.expires_at)
    then lift (raised (fault StateCode.lease_lost))
    else (do
      change (extend_lease name acquired expires)
      pure (record {
        name = name;
        holder = holder;
        fence = existing.fence;
        acquired_at = acquired;
        expires_at = expires;
      }))

unfoldable pub renew_rows : Text → Text → Text → Text → Text → Action Lease
unfolding renew_held execute bind_text
renew_rows name holder acquired expires now_stamp = do
  bind_text name
  existing ← select (current name)
  renew_held name holder acquired expires now_stamp existing

-- The `try` block of `renew_lease`, over tested arguments.
unfoldable pub renew_valid : Text → Text → Value → ℕ → Action Lease
unfolding renew_rows stamps transaction
renew_valid name holder now ttl = attempt StateCode.lease (do
  (acquired, expires) ← lift (stamps now ttl)
  now_stamp ← lift (format_timestamp now)
  transaction (renew_rows name holder acquired expires now_stamp))

unfoldable pub renew_lease : Value → Value → Value → Value → Action Lease
unfolding renew_valid validate_identifier validate_ttl
renew_lease name_value holder_value now ttl_value = do
  name ← lift (validate_identifier name_value StateCode.lease_name)
  holder ← lift (validate_identifier holder_value StateCode.lease_holder)
  ttl ← lift (validate_ttl ttl_value)
  renew_valid name holder now ttl

abbrev owned : Text → Text → Lease → Bool
owned name holder r = text_eq r.name name && text_eq r.holder holder

-- `DELETE FROM _leases WHERE name AND holder`, and its row count.
unfoldable pub release_rows : Text → Text → Action ℕ
unfolding execute bind_text
release_rows name holder = do
  bind_text name
  bind_text holder
  execute λ t. (
    row_count (owned name holder) t.leases,
    record t { leases = delete (owned name holder) t.leases },
  )

unfoldable pub release_lease : Value → Value → Action Bool
unfolding release_rows validate_identifier transaction
release_lease name_value holder_value = do
  name ← lift (validate_identifier name_value StateCode.lease_name)
  holder ← lift (validate_identifier holder_value StateCode.lease_holder)
  removed ← attempt_sqlite StateCode.lease (transaction (release_rows name holder))
  pure (ltb 0 removed)

unfoldable pub is_stale : Lease → Option Lease → Bool
is_stale lease none = true
is_stale lease (some r) = not (text_eq r.holder lease.holder) || not (r.fence == lease.fence)

-- `require_current_lease`, on the connection of the caller's transaction.
unfoldable pub require_current_lease : Lease → Action (Unit {0})
unfolding is_stale execute bind_text
require_current_lease lease = do
  row ← attempt_sqlite StateCode.lease (bind_text lease.name >> select (current lease.name))
  require (not (is_stale lease row)) StateCode.lease_lost

-- The first of the two stamps is that of `now`.
pub stamps-now :
    (now : Value) (ttl : ℕ) {a x : Text}
    → stamps now ttl ≡ ok (a, x)
    → format_timestamp {C = StateCode} now ≡ ok a
unfolding stamps
stamps-now now ttl h = ground arith
