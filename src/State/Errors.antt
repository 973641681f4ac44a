-- ===== src/State/Errors.antt =====
-- The fixed `MH_STATE_*` codes of `StateError`, in lower case and without that prefix.
pub data StateCode : Type 0 where
  lease_name lease_holder lease_ttl lease_held lease_lost lease : StateCode
  cursor_source cursor_position cursor_segment cursor_revision cursor_conflict cursor : StateCode
  derivation_rule derivation_version derivation_position : StateCode
  derivation_revision derivation_conflict derivation : StateCode
  alert_rule alert_version alert_count alert_state alert_timestamp alert_transition : StateCode
  alert_revision alert_conflict alert : StateCode
  migration audit txn closed : StateCode
  barrier barrier_busy barrier_unsafe : StateCode
