-- ===== src/State/AlertState.antt =====
-- src/milhouse/state/alert_state.py: the stored state of alert rules, by compare-and-set.
pub mod Cas
use milhouse_oss.Prelude.{
  ℕ, ◌+◌, Bool, Option, none, some, List, [], ◌∷◌, ◌==◌, ◌&&◌, if◌then◌else◌, Text, codes, text_eq,
  text_in,
}
use milhouse_oss.Python.Value.{Value, str}
use milhouse_oss.Python.Outcome.{Outcome, ok, raised, fault}
use milhouse_oss.Core.Clock.{format_timestamp}
use milhouse_oss.State.Errors.{StateCode}
use milhouse_oss.State.Schema.{AlertRuleState, Tables}
use milhouse_oss.State.Table.{find, upsert}
use milhouse_oss.State.Validate.{validate_identifier, validate_at_least, validate_optional_text}
use milhouse_oss.State.Database.{
  Action, ◌>>=◌, ◌>>◌, pure, lift, select, change, execute, bind_integer, bind_text, bind_optional,
  require, connection, transaction, attempt, attempt_sqlite,
}

abbrev pub inactive : Text
inactive = codes "inactive"

abbrev pub firing : Text
firing = codes "firing"

abbrev pub resolved : Text
resolved = codes "resolved"

-- `_ALERT_STATES`
abbrev pub alert_states : List Text
alert_states = inactive ∷ firing ∷ resolved ∷ []

unfoldable pub validate_state : Value → Outcome StateCode Text
validate_state (str s) =
    if text_in s alert_states then ok s else raised (fault StateCode.alert_state)
validate_state _ = raised (fault StateCode.alert_state)

abbrev pub is_rule : Text → ℕ → AlertRuleState → Bool
is_rule rule_id version r = text_eq r.rule_id rule_id && (r.rule_version == version)

unfoldable pub stored_state : Text → ℕ → Tables → Option AlertRuleState
stored_state rule_id version t = find (is_rule rule_id version) t.alert_states

abbrev pub state_revision : Option AlertRuleState → ℕ
state_revision none = 0
state_revision (some r) = r.revision

unfoldable pub put_state : AlertRuleState → Tables → Tables
put_state s t = record t {
  alert_states = upsert (is_rule s.rule_id s.rule_version) s t.alert_states;
}

-- As in `read_checkpoint`, the OverflowError of a version beyond 64 bits escapes.
unfoldable pub read_alert_state : Value → Value → Action (Option AlertRuleState)
unfolding validate_identifier validate_at_least connection execute bind_integer bind_text
read_alert_state rule_value version_value = do
  rule_id ← lift (validate_identifier rule_value StateCode.alert_rule)
  version ← lift (validate_at_least 1 version_value StateCode.alert_version)
  attempt_sqlite StateCode.alert (
      connection
        (bind_text rule_id >> bind_integer version >> select (stored_state rule_id version)))

-- The new contents of a row, as they are given and once they are tested.
pub record NewState : Type 0 where
  pub consecutive_fail_count : Value
  pub consecutive_success_count : Value
  pub current_state : Value
  pub cooldown_until : Value
  pub last_sample_at : Value
  pub last_transition_id : Value

pub record Contents : Type 0 where
  pub consecutive_fail_count : ℕ
  pub consecutive_success_count : ℕ
  pub current_state : Text
  pub cooldown_until : Option Text
  pub last_sample_at : Option Text
  pub last_transition_id : Option Text

-- The body of the transaction of `advance_alert_state`.
unfoldable pub advance_rows : Text → ℕ → Contents → ℕ → Text → Action AlertRuleState
unfolding execute bind_integer bind_text put_state
advance_rows rule_id version contents expected updated_at = do
  bind_text rule_id
  bind_integer version
  existing ← select (stored_state rule_id version)
  require (state_revision existing == expected) StateCode.alert_conflict
  let revision : ℕ = state_revision existing + 1
  bind_integer contents.consecutive_fail_count
  bind_integer contents.consecutive_success_count
  bind_optional contents.cooldown_until
  bind_optional contents.last_sample_at
  bind_optional contents.last_transition_id
  bind_integer revision
  let s : AlertRuleState = record {
    rule_id = rule_id;
    rule_version = version;
    consecutive_fail_count = contents.consecutive_fail_count;
    consecutive_success_count = contents.consecutive_success_count;
    current_state = contents.current_state;
    cooldown_until = contents.cooldown_until;
    last_sample_at = contents.last_sample_at;
    last_transition_id = contents.last_transition_id;
    revision = revision;
    updated_at = updated_at;
  }
  change (put_state s)
  pure s

-- The `try` block of `advance_alert_state`, over tested arguments.
unfoldable pub advance_valid : Text → ℕ → Contents → Value → ℕ → Action AlertRuleState
unfolding advance_rows transaction
advance_valid rule_id version contents now expected = attempt StateCode.alert (do
  updated_at ← lift (format_timestamp now)
  transaction (advance_rows rule_id version contents expected updated_at))

unfoldable pub advance_alert_state :
    Value → Value → NewState → Value → Value → Action AlertRuleState
unfolding advance_valid validate_identifier validate_at_least validate_optional_text validate_state
advance_alert_state rule_value version_value new now expected_value = do
  rule_id ← lift (validate_identifier rule_value StateCode.alert_rule)
  version ← lift (validate_at_least 1 version_value StateCode.alert_version)
  fails ← lift (validate_at_least 0 new.consecutive_fail_count StateCode.alert_count)
  successes ← lift (validate_at_least 0 new.consecutive_success_count StateCode.alert_count)
  state ← lift (validate_state new.current_state)
  cooldown ← lift (validate_optional_text new.cooldown_until StateCode.alert_timestamp)
  sample ← lift (validate_optional_text new.last_sample_at StateCode.alert_timestamp)
  transition ← lift (validate_optional_text new.last_transition_id StateCode.alert_transition)
  expected ← lift (validate_at_least 0 expected_value StateCode.alert_revision)
  advance_valid rule_id version
      (record {
        consecutive_fail_count = fails;
        consecutive_success_count = successes;
        current_state = state;
        cooldown_until = cooldown;
        last_sample_at = sample;
        last_transition_id = transition;
      })
      now expected
