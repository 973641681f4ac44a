-- ===== src/Runtime/Alerting/Runs.antt =====
-- Sequences of samples of one rule, each evaluated on the row that the one before has stored
-- (`_evaluate_rule` of src/milhouse/runtime/pipeline.py stores every update).
use milhouse_oss.Prelude.{
  ℕ, ◌+◌, ◌≡◌, ◌≢◌, refl, Bool, true, false, Option, none, some, List, [], ◌∷◌, arith, Text,
  text_eq, text_eq_iff, text_eq_refl,
}
use milhouse_oss.Python.Datetime.{Datetime}
use milhouse_oss.Python.Outcome.{Outcome, ok, ◌>>=◌, bind-ok}
use milhouse_oss.Python.Value.{instant}
use milhouse_oss.Core.Clock.{format_timestamp}
use milhouse_oss.State.Schema.{AlertRuleState}
use milhouse_oss.State.AlertState.{firing, resolved}
use milhouse_oss.Runtime.Alerting.{
  AlertCode, AlertRuleSpec, AlertStateUpdate, AlertEvaluation, load, count_sample,
  evaluate_canary_state_rule,
}
use milhouse_oss.Runtime.Alerting.Transitions.{Counted, firing-ne-resolved}
use milhouse_oss.Runtime.Alerting.Engine.{Effect, quiet, fired, recovered, evaluate-Counted}

-- The row that `advance_alert_state` stores for an update.
unfoldable pub persisted : AlertRuleSpec → AlertStateUpdate → AlertRuleState
persisted spec u = record {
  rule_id = spec.rule_id;
  rule_version = spec.rule_version;
  consecutive_fail_count = u.consecutive_fail_count;
  consecutive_success_count = u.consecutive_success_count;
  current_state = u.current_state;
  cooldown_until = u.cooldown_until;
  last_sample_at = some u.last_sample_at;
  last_transition_id = u.last_transition_id;
  revision = u.expected_revision + 1;
  updated_at = u.last_sample_at;
}

pub record Sample : Type 0 where
  pub outcome : Text
  pub trigger : Option Text
  pub now : Datetime

-- What the transitions of a rule may be, from a state that is firing or is not.
abbrev pub Alternates : Bool → List (Option Text) → Type 0
Alternates f [] = Unit
Alternates f (none ∷ ts) = Alternates f ts
Alternates true (some t ∷ ts) = (t ≡ resolved) × Alternates false ts
Alternates false (some t ∷ ts) = (t ≡ firing) × Alternates true ts

pub is_firing : Option AlertRuleState → Bool
is_firing current = text_eq (load current).base_state firing

module _ (outcome : Text) (current : Option AlertRuleState) where
  is_firing-row :
      (spec : AlertRuleSpec) (u : AlertStateUpdate)
      → u.current_state ≡ (count_sample outcome (load current)).base_state
      → is_firing current ≡ is_firing (some (persisted spec u))
  unfolding is_firing load count_sample persisted
  is_firing-row spec u h = ground arith

  not_firing-row :
      (count_sample outcome (load current)).base_state ≢ firing → is_firing current ≡ false
  unfolding is_firing count_sample
  not_firing-row h = ground (arith, text_eq_iff (load current).base_state firing)

  firing-row : (count_sample outcome (load current)).base_state ≡ firing → is_firing current ≡ true
  unfolding is_firing count_sample
  firing-row h = ground (arith, text_eq_iff (load current).base_state firing)

is_firing-to :
    (spec : AlertRuleSpec) (u : AlertStateUpdate) (t : Text)
    → u.current_state ≡ t
    → is_firing (some (persisted spec u)) ≡ text_eq t firing
unfolding is_firing load persisted
is_firing-to spec u t h = ground arith

module _ (decimal : ℕ → Text) (sha256_hex : Text → Text) (sha256 : List ℕ → List ℕ)
    (nfc : Text → Text) (spec : AlertRuleSpec) (target : Text) where
  unfoldable pub evaluate : Sample → Option AlertRuleState → Outcome AlertCode AlertEvaluation
  evaluate s current =
      evaluate_canary_state_rule decimal sha256_hex sha256 nfc spec s.outcome s.trigger
        (some target) s.now current

  pub evaluate_sample :
      (s : Sample) (current : Option AlertRuleState) {e : AlertEvaluation}
      → evaluate s current ≡ ok e
      → let l = count_sample s.outcome (load current) in
        Counted l e
        × (format_timestamp {C = AlertCode} (instant s.now) ≡ ok e.update.last_sample_at)
        × Effect spec s.outcome s.trigger l e
  unfolding evaluate
  evaluate_sample s current h =
      evaluate-Counted decimal sha256_hex sha256 nfc spec s.outcome target s.now s.trigger current h

  -- The transitions of the samples, and the row at the end.
  unfoldable pub run :
      List Sample
      → Option AlertRuleState
      → Outcome AlertCode (List (Option Text) × Option AlertRuleState)
  run [] current = ok ([], current)
  run (s ∷ ss) current = do
    e ← evaluate s current
    (ts, last) ← run ss (some (persisted spec e.update))
    ok (e.transition ∷ ts, last)

  Effect-Alternates :
      (s : Sample) (current : Option AlertRuleState) (e : AlertEvaluation) (ts : List (Option Text))
      → Effect spec s.outcome s.trigger (count_sample s.outcome (load current)) e
      → Alternates (is_firing (some (persisted spec e.update))) ts
      → Alternates (is_firing current) (e.transition ∷ ts)
  Effect-Alternates s current e ts (quiet q) h =
      let same = is_firing-row s.outcome current spec e.update q.same_state in
      rw (q.no_transition, same) h
  Effect-Alternates s current e ts (fired d may m) h =
      let before = not_firing-row s.outcome current may.not_firing in
      let after = is_firing-to spec e.update firing m.new_state in
      rw (m.transition, before) (refl, rw (after, text_eq_refl firing) at h)
  Effect-Alternates s current e ts (recovered d may m k) h =
      let before = firing-row s.outcome current may.was_firing in
      let after = is_firing-to spec e.update resolved m.new_state in
      rw (m.transition, before) (refl, rw (after, firing-ne-resolved) at h)

  -- In every run that returns the transitions alternate: no firing follows a firing, and no recovery
  -- a recovery.
  pub run-Alternates :
      (ss : List Sample) (current : Option AlertRuleState) {ts : List (Option Text)}
      {last : Option AlertRuleState}
      → run ss current ≡ ok (ts, last)
      → Alternates (is_firing current) ts
  unfolding run
  run-Alternates [] current {ts} {last} h = let e : ts ≡ [] = ground arith in rw e tt
  run-Alternates (s ∷ ss) current {ts} {last} h =
      let (e, he, h1) = bind-ok (evaluate s current) _ h in
      let (rest, hr, h2) = bind-ok (run ss (some (persisted spec e.update))) _ h1 in
      let shape : ts ≡ e.transition ∷ rest.0 = ground arith in
      let (c, f, effect) = evaluate_sample s current he in
      rw shape (
        Effect-Alternates s current e rest.0 effect
          (run-Alternates ss (some (persisted spec e.update)) {ts = rest.0} {last = rest.1} hr))
