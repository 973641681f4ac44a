-- ===== src/Examples/Rules.antt =====
-- state/derivation.py and state/alert_state.py at one rule, and a transaction that raises.
use milhouse_oss.Prelude.{◌≡◌, ◌≢◌, refl, false, none, some, [], ◌∷◌, Text, text_eq, codes}
use milhouse_oss.Python.Value.{null, str}
use milhouse_oss.Python.Outcome.{ok, raised, fault}
use milhouse_oss.Python.Datetime.{as_utc}
use milhouse_oss.Core.Clock.{format_timestamp, stamp, fixed_digits}
use milhouse_oss.State.Errors.{StateCode}
use milhouse_oss.State.Schema.{DerivationCheckpoint, AlertRuleState, Tables}
use milhouse_oss.State.Database.{
  fresh, next_fault, change, require, ◌>>◌, ControlDatabase, execute, transaction,
}
use milhouse_oss.State.Database.Atomic.{transaction-atomic}
use milhouse_oss.State.Table.{find, upsert}
use milhouse_oss.State.Derivation.{
  advance_checkpoint, read_checkpoint, stored_checkpoint, put_checkpoint,
}
use milhouse_oss.State.Derivation.Cas.{second_pass_refused, read-advance_checkpoint}
use milhouse_oss.State.AlertState.{NewState, firing, advance_alert_state, stored_state, put_state}
use milhouse_oss.State.AlertState.Cas.{double_advance_refused}
use milhouse_oss.Examples.Data.{at, number}

abbrev rule : Text
rule = codes "incidents"

abbrev first_pass : DerivationCheckpoint
first_pass = record {
  rule = rule;
  rule_version = 1;
  position = codes "row 5";
  revision = 1;
  updated_at = codes "2024-02-29T12:00:09.007Z";
}

passed :
    (advance_checkpoint (str rule) (number 1) (str (codes "row 5")) (at 12 0) (number 0) fresh).0
    ≡ ok first_pass
unfolding advance_checkpoint stored_checkpoint put_checkpoint find upsert text_eq format_timestamp
    as_utc stamp fixed_digits
passed = refl

second_pass_refused_example :
    ((d : DerivationCheckpoint)
      → (advance_checkpoint
          (str rule)
          (number 1)
          (str (codes "row 6"))
          (at 12 1)
          (number 0)
          (advance_checkpoint
            (str rule)
            (number 1)
            (str (codes "row 5"))
            (at 12 0)
            (number 0)
            fresh).1).0
        ≢ ok d)
    × ((advance_checkpoint
          (str rule)
          (number 1)
          (str (codes "row 6"))
          (at 12 1)
          (number 0)
          (advance_checkpoint
            (str rule)
            (number 1)
            (str (codes "row 5"))
            (at 12 0)
            (number 0)
            fresh).1).1.tables
        ≡ (advance_checkpoint
            (str rule)
            (number 1)
            (str (codes "row 5"))
            (at 12 0)
            (number 0)
            fresh).1.tables)
second_pass_refused_example =
    second_pass_refused (str rule) (number 1) (str (codes "row 5")) (at 12 0) (number 0)
      (str (codes "row 6")) (at 12 1) fresh passed

passed_answers :
    ((advance_checkpoint
        (str rule)
        (number 1)
        (str (codes "row 5"))
        (at 12 0)
        (number 0)
        fresh).1.closed
      ≡ false)
    × (next_fault
          (advance_checkpoint
            (str rule)
            (number 1)
            (str (codes "row 5"))
            (at 12 0)
            (number 0)
            fresh).1.faults
        ≡ false)
unfolding advance_checkpoint stored_checkpoint put_checkpoint find upsert text_eq format_timestamp
    as_utc stamp fixed_digits next_fault
passed_answers = (refl, refl)

read-advance_checkpoint_example :
    (read_checkpoint
      (str rule)
      (number 1)
      (advance_checkpoint
        (str rule)
        (number 1)
        (str (codes "row 5"))
        (at 12 0)
        (number 0)
        fresh).1).0
    ≡ ok (some first_pass)
read-advance_checkpoint_example =
    read-advance_checkpoint (str rule) (number 1) (str (codes "row 5")) (at 12 0) (number 0) fresh
      passed passed_answers.0 passed_answers.1

abbrev fired_state : NewState
fired_state = record {
  consecutive_fail_count = number 3;
  consecutive_success_count = number 0;
  current_state = str firing;
  cooldown_until = null;
  last_sample_at = null;
  last_transition_id = null;
}

abbrev fired_row : AlertRuleState
fired_row = record {
  rule_id = rule;
  rule_version = 1;
  consecutive_fail_count = 3;
  consecutive_success_count = 0;
  current_state = firing;
  cooldown_until = none;
  last_sample_at = none;
  last_transition_id = none;
  revision = 1;
  updated_at = codes "2024-02-29T12:00:09.007Z";
}

advanced :
    (advance_alert_state (str rule) (number 1) fired_state (at 12 0) (number 0) fresh).0
    ≡ ok fired_row
unfolding advance_alert_state stored_state put_state find upsert text_eq format_timestamp as_utc
    stamp fixed_digits
advanced = refl

abbrev after_advance : ControlDatabase
after_advance = (advance_alert_state (str rule) (number 1) fired_state (at 12 0) (number 0) fresh).1

double_advance_refused_example :
    ((d : AlertRuleState)
      → (advance_alert_state (str rule) (number 1) fired_state (at 12 1) (number 0) after_advance).0
        ≢ ok d)
    × ((advance_alert_state
          (str rule)
          (number 1)
          fired_state
          (at 12 1)
          (number 0)
          after_advance).1.tables
        ≡ after_advance.tables)
double_advance_refused_example =
    double_advance_refused (str rule) (number 1) fired_state fired_state (at 12 0) (at 12 1)
      (number 0) fresh advanced

-- A body that changes a table and then fails.
abbrev spoiled : Tables → Tables
spoiled t = record t { checkpoints = first_pass ∷ [] }

spoiled_raises :
    (transaction (change spoiled >> require false StateCode.derivation_conflict) fresh).0
    ≡ raised (fault StateCode.derivation_conflict)
unfolding transaction execute
spoiled_raises = refl

transaction-atomic_example :
    (transaction (change spoiled >> require false StateCode.derivation_conflict) fresh).1.tables
    ≡ fresh.tables
transaction-atomic_example =
    transaction-atomic (change spoiled >> require false StateCode.derivation_conflict) fresh
      spoiled_raises
