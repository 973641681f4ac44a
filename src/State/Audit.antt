-- ===== src/State/Audit.antt =====
-- src/milhouse/state/audit.py: the append-only audit trail.
pub mod Append
use milhouse_oss.Prelude.{
  ℕ, suc, ◌+◌, ◌-◌, ◌^◌, Bool, true, false, not, ◌&&◌, ◌||◌, Option, none, some, List, [], ◌∷◌,
  ◌++◌, ltb, leb, ◌==◌, if◌then◌else◌, pos, all, length, Text, codes, text_eq,
}
use milhouse_oss.Python.Patterns.{between, is_digit, is_name}
use milhouse_oss.Python.Value.{Value, null, bool, int, str}
use milhouse_oss.Python.Outcome.{Outcome, ok, raised, fault}
use milhouse_oss.Core.Clock.{format_timestamp}
use milhouse_oss.State.Errors.{StateCode}
use milhouse_oss.State.Schema.{AuditRecord, Tables}
use milhouse_oss.State.Database.{
  Action, ◌>>=◌, ◌>>◌, pure, lift, select, change, execute, bind_integer, require, connection,
  attempt, attempt_sqlite,
}

abbrev audit_fault : {A : Type 0} → Outcome StateCode A
audit_fault = raised (fault StateCode.audit)

-- `_RESOURCE_PATTERN.fullmatch`
unfoldable pub is_resource : Text → Bool
unfolding is_name
is_resource s = is_name 255 s

-- `_validate_resource`
unfoldable pub validate_resource : Value → Outcome StateCode Text
unfolding is_resource
validate_resource (str s) = if is_resource s then ok s else audit_fault
validate_resource _ = audit_fault

-- What follows a prefix.
unfoldable strip : Text → Text → Option Text
strip [] s = some s
strip (p ∷ ps) [] = none
strip (p ∷ ps) (c ∷ s) = let rest = strip ps s in if p == c then rest else none

abbrev is_base32 : ℕ → Bool
is_base32 c = between b'a' b'z' c || between b'2' b'7' c

-- `_batch_[a-z2-7]{52}`
is_batch_part : Option Text → Bool
is_batch_part none = false
is_batch_part (some d) = (length d == 52) && all is_base32 d

-- At most `n` more digits of the epoch, and the rest.
after_epoch : ℕ → Text → Bool
unfolding is_batch_part strip
after_epoch n [] = false
after_epoch n (c ∷ s) =
    let rest = after_epoch (n - 1) s in
    if is_digit c then ltb 0 n && rest else is_batch_part (strip (codes "_batch_") (c ∷ s))

is_epoch : Option Text → Bool
unfolding after_epoch
is_epoch none = false
is_epoch (some []) = false
is_epoch (some (c ∷ s)) = between b'1' b'9' c && after_epoch 9 s

-- `_FINGERPRINT_TOKEN.fullmatch`
unfoldable pub is_fingerprint_token : Text → Bool
unfolding is_epoch strip
is_fingerprint_token s = is_epoch (strip (codes "mh_fp1_e") s)

-- `_keyed_resource`. A pseudonymizer is its method `fingerprint`.
unfoldable pub keyed_resource : Option (Text → Text → Text) → Text → Outcome StateCode (Option Text)
keyed_resource none batch_id = ok none
keyed_resource (some fingerprint) batch_id =
    let token = fingerprint (codes "batch") batch_id in
    if ltb 128 (length token) || not (is_fingerprint_token token)
    then audit_fault
    else ok (some token)

-- `_validate_count`
unfoldable pub validate_count : Value → Outcome StateCode ℕ
validate_count (int (pos n)) = if ltb n (2 ^ 63) then ok n else audit_fault
validate_count _ = audit_fault

unfoldable pub validate_flag : Value → Outcome StateCode Bool
validate_flag (bool b) = ok b
validate_flag _ = audit_fault

-- `INSERT INTO _audit`: AUTOINCREMENT gives the next id.
unfoldable pub append_audit : AuditRecord → Tables → Tables
append_audit r t = record t {
  audit = t.audit ++ record r { id = suc t.audit_sequence } ∷ [];
  audit_sequence = suc t.audit_sequence;
}

-- `_insert_audit`; the id of its record is not used.
unfoldable pub insert_audit : Value → (Text → AuditRecord) → Action (Unit {0})
unfolding execute append_audit
insert_audit now row = do
  recorded_at ← attempt StateCode.audit (lift (format_timestamp now))
  attempt StateCode.audit (change (append_audit (row recorded_at)))

-- The row that a prune leaves.
abbrev pub prune_row : Bool → Option Text → ℕ → ℕ → Text → AuditRecord
prune_row undelivered resource record_count byte_size recorded_at = record {
  id = 0;
  recorded_at = recorded_at;
  action = codes "retention_prune";
  actor = codes "maintenance";
  outcome = if undelivered then codes "pruned_undelivered" else codes "pruned";
  resource = resource;
  reason = some (if undelivered then codes "expired_undelivered" else codes "expired");
  record_count = some record_count;
  byte_size = some byte_size;
  content_sha256 = none;
  file_sha256 = none;
}

-- On the connection of the caller's transaction.
unfoldable pub record_retention_prune :
    Value → Value → Value → Value → Value → Option (Text → Text → Text) → Action (Unit {0})
unfolding validate_flag validate_resource validate_count keyed_resource insert_audit
record_retention_prune now batch_value record_value byte_value undelivered_value pseudonymizer = do
  undelivered ← lift (validate_flag undelivered_value)
  batch_id ← lift (validate_resource batch_value)
  record_count ← lift (validate_count record_value)
  byte_size ← lift (validate_count byte_value)
  resource ← lift (keyed_resource pseudonymizer batch_id)
  insert_audit now (prune_row undelivered resource record_count byte_size)

-- `WHERE action`, `ORDER BY id` and `LIMIT`; the rows stand in the order of their ids.
unfoldable pub select_action : Option Text → List AuditRecord → List AuditRecord
select_action none t = t
select_action (some a) [] = []
select_action (some a) (r ∷ t) =
    let rest = select_action (some a) t in if text_eq r.action a then r ∷ rest else rest

unfoldable pub limited : ℕ → List AuditRecord → List AuditRecord
limited n [] = []
limited n (r ∷ t) = let rest = limited (n - 1) t in if n == 0 then [] else r ∷ rest

unfoldable pub validate_limit : Value → Outcome StateCode ℕ
validate_limit (int (pos n)) = if ltb 0 n && leb n 100000 then ok n else audit_fault
validate_limit _ = audit_fault

unfoldable pub validate_action : Value → Outcome StateCode (Option Text)
validate_action null = ok none
validate_action (str (c ∷ s)) = ok (some (c ∷ s))
validate_action _ = audit_fault

unfoldable pub list_audit : Value → Value → Action (List AuditRecord)
unfolding validate_limit validate_action connection execute
list_audit action_value limit_value = do
  limit ← lift (validate_limit limit_value)
  action ← lift (validate_action action_value)
  attempt_sqlite StateCode.audit
      (connection (select (λ t. limited limit (select_action action t.audit))))
