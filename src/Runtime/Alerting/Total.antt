-- ===== src/Runtime/Alerting/Total.antt =====
-- Where `evaluate_canary_state_rule` is sure to return.
use milhouse_oss.Prelude.{
  ℕ, ◌+◌, ◌<◌, ◌≡◌, refl, ap, ◌∙◌, Option, none, some, arith, Text, text_eq, false, text_eq_refl,
  List,
}
use milhouse_oss.Python.Datetime.{Datetime}
use milhouse_oss.Python.Value.{instant}
use milhouse_oss.Python.Outcome.{ok}
use milhouse_oss.Core.Clock.{format_timestamp}
use milhouse_oss.State.Schema.{AlertRuleState}
use milhouse_oss.Runtime.Alerting.{
  AlertCode, success, failure, AlertRuleSpec, AlertEvaluation, Loaded, load, count_sample,
  decide_transition, emit, evaluate_canary_state_rule,
}
use milhouse_oss.Runtime.Alerting.Transitions.{Quiet, emit-Quiet}

failure-ne-success : text_eq failure success ≡ false
unfolding text_eq
failure-ne-success = refl

no_move_below :
    (spec : AlertRuleSpec) (trigger : Option Text) (s : Text) (current : Option AlertRuleState)
    → (load current).fail + 1 < spec.consecutive_failures
    → decide_transition spec failure trigger s (count_sample failure (load current)) ≡ none
unfolding decide_transition count_sample
no_move_below spec trigger s current below =
    ground (arith, text_eq_refl failure, failure-ne-success)

count-failure :
    (l : Loaded) → count_sample failure l ≡ record l { fail = l.fail + 1; success_count = 0 }
unfolding count_sample
count-failure l = rw (text_eq_refl failure) refl

module _ (decimal : ℕ → Text) (sha256_hex : Text → Text) (sha256 : List ℕ → List ℕ)
    (nfc : Text → Text) (spec : AlertRuleSpec) (target : Text) (now : Datetime) where
  emit_returns :
      (s : Text) (l : Loaded) (trigger : Option Text)
      → (e : AlertEvaluation) × (emit decimal sha256_hex sha256 nfc spec target now s l none trigger
          ≡ ok e)
  unfolding emit
  emit_returns s l trigger = (_, refl)

  stamped_step :
      (trigger : Option Text) (s : Text) (current : Option AlertRuleState)
      → format_timestamp {C = AlertCode} (instant now) ≡ ok s
      → evaluate_canary_state_rule decimal sha256_hex sha256 nfc spec failure trigger
          (some target)
          now
          current
        ≡ emit decimal sha256_hex sha256 nfc spec target now s
            (count_sample failure (load current))
            (decide_transition spec failure trigger s (count_sample failure (load current)))
            trigger
  unfolding evaluate_canary_state_rule
  stamped_step trigger s current es = ground (arith, es, text_eq_refl failure)

  evaluated :
      (trigger : Option Text) (s : Text) (current : Option AlertRuleState)
      → format_timestamp {C = AlertCode} (instant now) ≡ ok s
      → (load current).fail + 1 < spec.consecutive_failures
      → evaluate_canary_state_rule decimal sha256_hex sha256 nfc spec failure trigger
          (some target)
          now
          current
        ≡ emit decimal sha256_hex sha256 nfc spec target now s
            (count_sample failure (load current))
            none
            trigger
  evaluated trigger s current es below =
      stamped_step trigger s current es
      ∙ ap
          (λ move.
            emit decimal sha256_hex sha256 nfc spec target now s
              (count_sample failure (load current)) move trigger)
          (no_move_below spec trigger s current below)

  -- A failed sample that leaves the count below the threshold is always evaluated, when its instant
  -- has a timestamp: the failure is counted, the count of successes goes to 0, the time of the sample
  -- is stored and the revision goes up by one; nothing is emitted, and the state, the cooldown and the
  -- last transition stay as stored, whatever they and the record to cite are.
  pub failure_below_threshold :
      (trigger : Option Text) (s : Text) (current : Option AlertRuleState)
      → format_timestamp {C = AlertCode} (instant now) ≡ ok s
      → (load current).fail + 1 < spec.consecutive_failures
      → (e : AlertEvaluation) × (evaluate_canary_state_rule decimal sha256_hex sha256 nfc spec
            failure trigger
            (some target)
            now
            current
          ≡ ok e)
        × Quiet (load current) e
        × (e.update.consecutive_fail_count ≡ (load current).fail + 1)
        × (e.update.consecutive_success_count ≡ 0)
        × (e.update.last_sample_at ≡ s)
        × (e.update.revision ≡ (load current).revision + 1)
  failure_below_threshold trigger s current es below =
      let l = count_sample failure (load current) in
      let (e, he) = emit_returns s l trigger in
      let (c, stamped, q) =
        emit-Quiet decimal sha256_hex sha256 nfc spec target now s l trigger he in
      let same = count-failure (load current) in
      (
        e,
        evaluated trigger s current es below ∙ he,
        record {
          no_transition = q.no_transition;
          no_draft = q.no_draft;
          same_state = q.same_state ∙ ap (λ x. x.base_state) same;
          same_cooldown = q.same_cooldown ∙ ap (λ x. x.cooldown_until) same;
          same_last = q.same_last ∙ ap (λ x. x.last_transition_id) same;
        },
        c.fails ∙ ap (λ x. x.fail) same,
        c.successes ∙ ap (λ x. x.success_count) same,
        stamped,
        c.next ∙ ap (λ x. x.revision + 1) same,
      )
