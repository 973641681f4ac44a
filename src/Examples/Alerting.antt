-- ===== src/Examples/Alerting.antt =====
-- runtime/alerting.py at a rule that fires after three failures and recovers after one success.
use milhouse_oss.Outbox.Lines.{take}
use milhouse_oss.Prelude.{
  ◌+◌, ◌<◌, ℕ, ◌≡◌, refl, Option, some, none, List, [], ◌∷◌, Text, codes, text_eq, text_lt, arith,
  All,
}
use milhouse_oss.Python.Value.{instant}
use milhouse_oss.Python.Outcome.{Outcome, ok, raised}
use milhouse_oss.Python.Datetime.{as_utc, plus_seconds}
use milhouse_oss.Core.Clock.{format_timestamp, stamp, fixed_digits}
use milhouse_oss.Core.Canonical.{text, integer, object, end, field, canonical_json_bytes}
use milhouse_oss.Domain.Identity.{derive_alert_key, derive_transition_id}
use milhouse_oss.State.Schema.{AlertRuleState}
use milhouse_oss.State.AlertState.{inactive, firing, resolved}
use milhouse_oss.Runtime.Alerting.{
  AlertCode, AlertRuleSpec, AlertEvaluation, success, failure, load, count_sample,
  decide_transition, next_cooldown, alert_draft, emit, evaluate_canary_state_rule,
}
use milhouse_oss.Runtime.Alerting.Total.{failure_below_threshold}
use milhouse_oss.Runtime.Alerting.Transitions.{Quiet}
use milhouse_oss.Runtime.Alerting.Engine.{Tally, tallied, Effect, evaluate-Effect}
use milhouse_oss.Runtime.Alerting.Runs.{
  Sample, persisted, Alternates, is_firing, evaluate, run, run-Alternates,
}
use milhouse_oss.Runtime.Alerting.Threshold.{IsNone, fires_at_threshold}
use milhouse_oss.Examples.Data.{datetime_at}

abbrev spec : AlertRuleSpec
spec = record {
  rule_id = codes "site-down";
  rule_version = 1;
  collector = codes "canary";
  consecutive_failures = 3;
  consecutive_successes = 1;
  cooldown_seconds = 60;
}

abbrev decimal : ℕ → Text
decimal n = n ∷ []

abbrev sha256_hex : Text → Text
sha256_hex s = s

-- The first bytes in place of a hash.
abbrev sha256 : List ℕ → List ℕ
sha256 bytes = take 20 bytes

abbrev nfc : Text → Text
nfc s = s

abbrev target : Text
target = codes "site-1"

abbrev record_id : Text
record_id = codes "record-9"

abbrev failed_at : ℕ → Sample
failed_at m = record { outcome = failure; trigger = some record_id; now = datetime_at 12 m }

abbrev succeeded_at : ℕ → Sample
succeeded_at m = record { outcome = success; trigger = some record_id; now = datetime_at 12 m }

abbrev value_or : {A : Type 0} → A → Outcome AlertCode A → A
value_or d (ok a) = a
value_or d (raised e) = d

abbrev none_yet : AlertEvaluation
none_yet = record {
  update = record {
    consecutive_fail_count = 0;
    consecutive_success_count = 0;
    current_state = inactive;
    cooldown_until = none;
    last_sample_at = codes "";
    last_transition_id = none;
    expected_revision = 0;
    revision = 0;
  };
  draft = none;
  transition = none;
}

abbrev two_failures : List Sample
two_failures = failed_at 0 ∷ failed_at 1 ∷ []

-- The row after two failures.
abbrev counted_two : AlertRuleState
counted_two = record {
  rule_id = spec.rule_id;
  rule_version = 1;
  consecutive_fail_count = 2;
  consecutive_success_count = 0;
  current_state = inactive;
  cooldown_until = none;
  last_sample_at = some (codes "2024-02-29T12:01:09.007Z");
  last_transition_id = none;
  revision = 2;
  updated_at = codes "2024-02-29T12:01:09.007Z";
}

module _ (s : Sample) (current : Option AlertRuleState) where
  abbrev outcome_of : Outcome AlertCode AlertEvaluation
  outcome_of = evaluate decimal sha256_hex sha256 nfc spec target s current

  abbrev rule_outcome : Outcome AlertCode AlertEvaluation
  rule_outcome =
      evaluate_canary_state_rule decimal sha256_hex sha256 nfc spec s.outcome s.trigger
        (some target) s.now current

ran_two :
    run decimal sha256_hex sha256 nfc spec target two_failures none
    ≡ ok (none ∷ none ∷ [], some counted_two)
unfolding run evaluate persisted evaluate_canary_state_rule load count_sample decide_transition emit
    alert_draft next_cooldown text_eq text_lt format_timestamp as_utc plus_seconds stamp
    fixed_digits derive_alert_key derive_transition_id take
ran_two = refl

third_evaluated :
    outcome_of (failed_at 2) (some counted_two)
    ≡ ok (value_or none_yet (outcome_of (failed_at 2) (some counted_two)))
unfolding run evaluate persisted evaluate_canary_state_rule load count_sample decide_transition emit
    alert_draft next_cooldown text_eq text_lt format_timestamp as_utc plus_seconds stamp
    fixed_digits derive_alert_key derive_transition_id take
third_evaluated = refl

fires_at_threshold_example :
    All IsNone (none ∷ none ∷ [])
    × ((value_or none_yet (outcome_of (failed_at 2) (some counted_two))).transition ≡ some firing)
fires_at_threshold_example =
    fires_at_threshold decimal sha256_hex sha256 nfc spec target two_failures (datetime_at 12 2)
      record_id (refl, (refl, tt)) refl ran_two third_evaluated

rule_evaluated :
    rule_outcome (failed_at 2) (some counted_two)
    ≡ ok (value_or none_yet (rule_outcome (failed_at 2) (some counted_two)))
unfolding run evaluate persisted evaluate_canary_state_rule load count_sample decide_transition emit
    alert_draft next_cooldown text_eq text_lt format_timestamp as_utc plus_seconds stamp
    fixed_digits derive_alert_key derive_transition_id take
rule_evaluated = refl

third_stamp :
    format_timestamp {C = AlertCode} (instant (datetime_at 12 2))
    ≡ ok (codes "2024-02-29T12:02:09.007Z")
unfolding format_timestamp as_utc stamp fixed_digits
third_stamp = refl

evaluate-Effect_example :
    Tally failure
      (some counted_two)
      (value_or none_yet (rule_outcome (failed_at 2) (some counted_two)))
    × (format_timestamp {C = AlertCode} (instant (datetime_at 12 2))
        ≡ ok
            (value_or none_yet
              (rule_outcome (failed_at 2) (some counted_two))).update.last_sample_at)
    × Effect spec failure
        (some record_id)
        (tallied
          (some counted_two)
          (value_or none_yet (rule_outcome (failed_at 2) (some counted_two))))
        (value_or none_yet (rule_outcome (failed_at 2) (some counted_two)))
evaluate-Effect_example =
    evaluate-Effect decimal sha256_hex sha256 nfc spec failure target (datetime_at 12 2)
      (some record_id) (some counted_two) rule_evaluated

-- Three failures and a success: a firing, and its recovery.
abbrev incident : List Sample
incident = failed_at 0 ∷ failed_at 1 ∷ failed_at 2 ∷ succeeded_at 3 ∷ []

abbrev recovered_row : AlertRuleState
recovered_row = record {
  rule_id = spec.rule_id;
  rule_version = 1;
  consecutive_fail_count = 0;
  consecutive_success_count = 1;
  current_state = resolved;
  cooldown_until = some (codes "2024-02-29T12:03:09.007Z");
  last_sample_at = some (codes "2024-02-29T12:03:09.007Z");
  last_transition_id = some (codes "mh_atr1_nvuwy2dpovzwkllbnrsxe5bnorzgc3tt");
  revision = 4;
  updated_at = codes "2024-02-29T12:03:09.007Z";
}

ran_incident :
    run decimal sha256_hex sha256 nfc spec target incident none
    ≡ ok (none ∷ none ∷ some firing ∷ some resolved ∷ [], some recovered_row)
unfolding run evaluate persisted evaluate_canary_state_rule load count_sample decide_transition emit
    alert_draft next_cooldown text_eq text_lt format_timestamp as_utc plus_seconds stamp
    fixed_digits derive_alert_key derive_transition_id take
ran_incident = refl

run-Alternates_example :
    Alternates (is_firing none) (none ∷ none ∷ some firing ∷ some resolved ∷ [])
run-Alternates_example =
    run-Alternates decimal sha256_hex sha256 nfc spec target incident none ran_incident

first_below : (load none).fail + 1 < spec.consecutive_failures
unfolding load
first_below = omega arith

-- A probe failure, with no record to cite, at a rule with no row.
failure_below_threshold_example :
    (e : AlertEvaluation) × (evaluate_canary_state_rule decimal sha256_hex sha256 nfc spec failure
        none
        (some target)
        (datetime_at 12 2)
        none
      ≡ ok e)
    × Quiet (load none) e
    × (e.update.consecutive_fail_count ≡ (load none).fail + 1)
    × (e.update.consecutive_success_count ≡ 0)
    × (e.update.last_sample_at ≡ codes "2024-02-29T12:02:09.007Z")
    × (e.update.revision ≡ (load none).revision + 1)
failure_below_threshold_example =
    failure_below_threshold decimal sha256_hex sha256 nfc spec target (datetime_at 12 2) none
      (codes "2024-02-29T12:02:09.007Z") none third_stamp first_below

-- The canonical bytes of an object whose keys are out of order, with a quote and a line break.
canonical_sample :
    canonical_json_bytes nfc decimal (
      object
        (field (codes "b") (text (codes "x\"\r\ny\u{1}")) (field (codes "a") (integer 50) end)))
    ≡ some (codes "{\"a\":2,\"b\":\"x\\\"\\ny\\u0001\"}")
unfolding canonical_json_bytes text_eq text_lt
canonical_sample = refl
