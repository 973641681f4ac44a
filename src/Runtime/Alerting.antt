-- ===== src/Runtime/Alerting.antt =====
-- src/milhouse/runtime/alerting.py: the `canary_state` alert engine.
pub mod Transitions
pub mod Engine
pub mod Runs
pub mod Threshold
pub mod Total
use milhouse_oss.Prelude.{
  ℕ, suc, ◌+◌, ◌*◌, Bool, true, false, not, ◌&&◌, ◌||◌, Option, none, some, List, [], ◌∷◌, ◌++◌,
  leb, ◌==◌, if◌then◌else◌, Text, codes, text_eq, text_lt, text_in,
}
use milhouse_oss.Python.Datetime.{Datetime, plus_seconds}
use milhouse_oss.Python.Value.{instant}
use milhouse_oss.Python.Outcome.{
  Exception, Outcome, ok, raised, fault, time_error, sqlite_error, overflow_error, ◌>>=◌, ◌>>◌,
  Exception, Outcome, ok, raised, fault, time_error, sqlite_error, unicode_error, ◌>>=◌, ◌>>◌,
  fail_if,
}
use milhouse_oss.Core.Clock.{format_timestamp}
use milhouse_oss.Core.Canonical.{text, integer, end, field}
use milhouse_oss.Domain.Identity.{Observation, IdentityCode, derive_alert_key, derive_transition_id}
use milhouse_oss.State.Schema.{AlertRuleState}
use milhouse_oss.State.AlertState.{inactive, firing, resolved}

-- `PipelineError` codes of this module, and those of `IdentityError`.
pub data AlertCode : Type 0 where
  alert_target alert_outcome : AlertCode
  identity : IdentityCode → AlertCode

abbrev pub success : Text
success = codes "success"

abbrev pub failure : Text
failure = codes "failure"

pub record AlertRuleSpec : Type 0 where
  pub rule_id : Text
  pub rule_version : ℕ
  pub collector : Text
  pub consecutive_failures : ℕ
  pub consecutive_successes : ℕ
  pub cooldown_seconds : ℕ

pub record AlertStateUpdate : Type 0 where
  pub consecutive_fail_count : ℕ
  pub consecutive_success_count : ℕ
  pub current_state : Text
  pub cooldown_until : Option Text
  pub last_sample_at : Text
  pub last_transition_id : Option Text
  pub expected_revision : ℕ
  pub revision : ℕ

-- The record draft of a transition: what varies in it.
pub record AlertDraft : Type 0 where
  pub occurred_at : Datetime
  pub expires_at : Datetime
  pub operation_id : Text
  pub source_generation_digest : Text
  pub observation : Observation
  pub alert_key : Text
  pub transition_id : Text
  pub revision : ℕ
  pub previous_state : Text
  pub state : Text
  pub severity : Text
  pub evidence_ids : List Text

pub record AlertEvaluation : Type 0 where
  pub update : AlertStateUpdate
  pub draft : Option AlertDraft
  pub transition : Option Text

-- What the engine reads of a stored row; the defaults stand before the first sample.
pub record Loaded : Type 0 where
  pub base_state : Text
  pub fail : ℕ
  pub success_count : ℕ
  pub cooldown_until : Option Text
  pub revision : ℕ
  pub last_transition_id : Option Text

unfoldable pub load : Option AlertRuleState → Loaded
load none = record {
  base_state = inactive;
  fail = 0;
  success_count = 0;
  cooldown_until = none;
  revision = 0;
  last_transition_id = none;
}
load (some r) = record {
  base_state = r.current_state;
  fail = r.consecutive_fail_count;
  success_count = r.consecutive_success_count;
  cooldown_until = r.cooldown_until;
  revision = r.revision;
  last_transition_id = r.last_transition_id;
}

-- The sampled counter goes up, and the other is reset.
unfoldable pub count_sample : Text → Loaded → Loaded
count_sample outcome l =
    if text_eq outcome failure
    then record l { fail = l.fail + 1; success_count = 0 }
    else record l { success_count = l.success_count + 1; fail = 0 }

abbrev pub is_some : Option Text → Bool
is_some none = false
is_some (some t) = true

-- `cooldown_until is None or now_stamp >= cooldown_until`
abbrev pub cooled_down : Option Text → Text → Bool
cooled_down none now_stamp = true
cooled_down (some until) now_stamp = not (text_lt now_stamp until)

-- The transition that a counted sample makes, if any.
unfoldable pub decide_transition : AlertRuleSpec → Text → Option Text → Text → Loaded → Option Text
decide_transition spec outcome trigger now_stamp l =
    if text_eq outcome failure
      && leb spec.consecutive_failures l.fail
      && not (text_eq l.base_state firing)
      && is_some trigger
      && cooled_down l.cooldown_until now_stamp
    then some firing
    else if text_eq outcome success
        && leb spec.consecutive_successes l.success_count
        && text_eq l.base_state firing
        && is_some trigger
    then some resolved
    else none

-- `_SEVERITY_BY_STATE`
abbrev pub severity_by_state : Text → Text
severity_by_state s = if text_eq s firing then codes "error" else codes "info"

identity_step : {A : Type 0} → Outcome IdentityCode A → Outcome AlertCode A
identity_step (ok a) = ok a
identity_step (raised (fault c)) = raised (fault (identity c))
identity_step (raised (time_error c)) = raised (time_error c)
identity_step (raised sqlite_error) = raised sqlite_error
identity_step (raised overflow_error) = raised overflow_error
identity_step (raised unicode_error) = raised unicode_error

-- `now + timedelta(seconds=n)`
later : Datetime → ℕ → Outcome AlertCode Datetime
later now n = elim (plus_seconds now n) [ none ↦ raised overflow_error | some t ↦ ok t ]

-- Only a firing moves the cooldown.
unfoldable pub next_cooldown :
    AlertRuleSpec → Datetime → Text → Loaded → Outcome AlertCode (Option Text)
unfolding later
next_cooldown spec now transition l =
    if text_eq transition firing
    then (do
      until ← later now spec.cooldown_seconds
      s ← format_timestamp (instant until)
      ok (some s))
    else ok l.cooldown_until

-- `decimal n` is `str(n)`; `sha256_hex` is the hash of the UTF-8 bytes of a text in
-- hexadecimal digits, `sha256` the hash of bytes, and `nfc` normalizes a text to NFC.
module _ (decimal : ℕ → Text) (sha256_hex : Text → Text) (sha256 : List ℕ → List ℕ)
    (nfc : Text → Text) where
  unfoldable pub source_generation_digest : AlertRuleSpec → Text
  source_generation_digest spec =
      sha256_hex (codes "alert.canary_state" ++ 0 ∷ (spec.rule_id ++ 0 ∷ decimal spec.rule_version))

  unfoldable pub transition_observation : AlertRuleSpec → Text → Text → Text → Observation
  transition_observation spec target now_stamp state = record {
    kind = codes "alert.canary_state.transition";
    parts = field (codes "rule") (text spec.rule_id) (
        field (codes "rule_version") (integer spec.rule_version) (
          field (codes "target") (text target) (
            field (codes "scheduled_at") (text now_stamp)
              (field (codes "state") (text state) end))));
  }

  -- The draft of a transition, and its id.
  unfoldable pub alert_draft :
      AlertRuleSpec → Text → Datetime → Text → Loaded → Text → Text → Outcome AlertCode AlertDraft
  unfolding source_generation_digest transition_observation identity_step later
  alert_draft spec target now now_stamp l transition trigger = do
    alert_key ←
        identity_step
          (derive_alert_key sha256 nfc decimal spec.rule_id spec.rule_version spec.collector target)
    let observation : Observation = transition_observation spec target now_stamp transition
    transition_id ←
        identity_step
          (derive_transition_id sha256 nfc decimal alert_key l.base_state transition observation)
    expires ← later now (365 * 86400)
    ok (record {
      occurred_at = now;
      expires_at = expires;
      operation_id = spec.rule_id ++ b':' ∷ now_stamp;
      source_generation_digest = source_generation_digest spec;
      observation = observation;
      alert_key = alert_key;
      transition_id = transition_id;
      revision = l.revision + 1;
      previous_state = l.base_state;
      state = transition;
      severity = severity_by_state transition;
      evidence_ids = trigger ∷ [];
    })

  unfoldable pub emit :
      AlertRuleSpec
      → Text
      → Datetime
      → Text
      → Loaded
      → Option Text
      → Option Text
      → Outcome AlertCode AlertEvaluation
  unfolding alert_draft next_cooldown
  emit spec target now now_stamp l (some transition) (some trigger) = do
    cooldown ← next_cooldown spec now transition l
    draft ← alert_draft spec target now now_stamp l transition trigger
    ok (record {
      update = record {
        consecutive_fail_count = l.fail;
        consecutive_success_count = l.success_count;
        current_state = transition;
        cooldown_until = cooldown;
        last_sample_at = now_stamp;
        last_transition_id = some draft.transition_id;
        expected_revision = l.revision;
        revision = l.revision + 1;
      };
      draft = some draft;
      transition = some transition;
    })
  emit spec target now now_stamp l _ _ = ok (record {
    update = record {
      consecutive_fail_count = l.fail;
      consecutive_success_count = l.success_count;
      current_state = l.base_state;
      cooldown_until = l.cooldown_until;
      last_sample_at = now_stamp;
      last_transition_id = l.last_transition_id;
      expected_revision = l.revision;
      revision = l.revision + 1;
    };
    draft = none;
    transition = none;
  })

  -- One sample of one rule. `target` is the id of the target descriptor, if there is one.
  unfoldable pub evaluate_canary_state_rule :
      AlertRuleSpec
      → Text
      → Option Text
      → Option Text
      → Datetime
      → Option AlertRuleState
      → Outcome AlertCode AlertEvaluation
  unfolding load count_sample decide_transition emit
  evaluate_canary_state_rule spec outcome trigger none now current = raised (fault alert_target)
  evaluate_canary_state_rule spec outcome trigger (some target) now current = do
    fail_if (not (text_in outcome (success ∷ failure ∷ []))) alert_outcome
    now_stamp ← format_timestamp (instant now)
    let l : Loaded = count_sample outcome (load current)
    emit spec target now now_stamp l (decide_transition spec outcome trigger now_stamp l) trigger
