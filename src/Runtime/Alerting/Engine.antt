-- ===== src/Runtime/Alerting/Engine.antt =====
-- `evaluate_canary_state_rule` against the state machine of the rule.
use milhouse_oss.Prelude.{
  ℕ, ◌+◌, ◌≡◌, refl, sym, ◌⊎◌, inl, inr, Bool-cases, Option-cases, true, false, Option, none, some,
  arith, Text, text_eq, text_eq_iff, text_in, List,
}
use mathlib.Core.Path.{subst}
use milhouse_oss.Python.Datetime.{Datetime}
use milhouse_oss.Python.Value.{instant}
use milhouse_oss.Python.Outcome.{Outcome-cases, ok}
use milhouse_oss.Core.Clock.{format_timestamp}
use milhouse_oss.State.Schema.{AlertRuleState}
use milhouse_oss.State.AlertState.{firing, resolved}
use milhouse_oss.Runtime.Alerting.{
  AlertCode, success, failure, AlertRuleSpec, AlertDraft, AlertEvaluation, Loaded, load,
  count_sample, decide_transition, next_cooldown, emit, evaluate_canary_state_rule,
}
use milhouse_oss.Runtime.Alerting.Transitions.{
  Counted, Quiet, Emitted, MayFire, MayRecover, firing-ne-resolved, success-ne-failure,
  decide-firing, decide-due, decide-resolved, decide_cases, emit-Quiet, emit-Emitted,
}

-- The three things that a sample can do.
pub data Effect (spec : AlertRuleSpec) (outcome : Text) (trigger : Option Text) (l : Loaded)
    (e : AlertEvaluation) : Type 0 where
  quiet : Quiet l e → Effect spec outcome trigger l e
  fired :
      (d : AlertDraft)
      → MayFire spec outcome e.update.last_sample_at l
      → Emitted trigger l e firing d
      → Effect spec outcome trigger l e
  recovered :
      (d : AlertDraft)
      → MayRecover spec outcome l
      → Emitted trigger l e resolved d
      → e.update.cooldown_until ≡ l.cooldown_until
      → Effect spec outcome trigger l e

recovery_keeps_cooldown :
    (spec : AlertRuleSpec) (now : Datetime) (l : Loaded) {c : Option Text}
    → next_cooldown spec now resolved l ≡ ok c
    → c ≡ l.cooldown_until
unfolding next_cooldown
recovery_keeps_cooldown spec now l h = ground (arith, firing-ne-resolved)

decide_needs_trigger :
    (spec : AlertRuleSpec) (outcome now_stamp : Text) (l : Loaded)
    → decide_transition spec outcome none now_stamp l ≡ none
unfolding decide_transition
decide_needs_trigger spec outcome now_stamp l = ground arith

-- The counters of a stored row, 0 before the first sample.
abbrev pub stored_fails : Option AlertRuleState → ℕ
stored_fails none = 0
stored_fails (some r) = r.consecutive_fail_count

abbrev pub stored_successes : Option AlertRuleState → ℕ
stored_successes none = 0
stored_successes (some r) = r.consecutive_success_count

abbrev pub stored_revision : Option AlertRuleState → ℕ
stored_revision none = 0
stored_revision (some r) = r.revision

-- What a sample does to the counters and the revision.
pub record Tally (outcome : Text) (current : Option AlertRuleState) (e : AlertEvaluation)
    : Type 0 where
  pub counters :
      ((outcome ≡ failure)
        × (e.update.consecutive_fail_count ≡ stored_fails current + 1)
        × (e.update.consecutive_success_count ≡ 0))
      ⊎ ((outcome ≡ success)
          × (e.update.consecutive_fail_count ≡ 0)
          × (e.update.consecutive_success_count ≡ stored_successes current + 1))
  pub expected : e.update.expected_revision ≡ stored_revision current
  pub next : e.update.revision ≡ stored_revision current + 1

-- The stored row with the new counters.
abbrev pub tallied : Option AlertRuleState → AlertEvaluation → Loaded
tallied current e = record (load current) {
  fail = e.update.consecutive_fail_count;
  success_count = e.update.consecutive_success_count;
}

count_sample-Tally :
    (outcome : Text) (current : Option AlertRuleState) (e : AlertEvaluation)
    → (outcome ≡ failure) ⊎ (outcome ≡ success)
    → Counted (count_sample outcome (load current)) e
    → Tally outcome current e
unfolding count_sample load
count_sample-Tally outcome none e (inl f) c =
    let t : text_eq outcome failure ≡ true = ground (arith, f, text_eq_iff outcome failure) in
    record {
      counters = inl (f, ground (arith, t, c.fails), ground (arith, t, c.successes));
      expected = ground (arith, t, c.expected);
      next = ground (arith, t, c.next);
    }
count_sample-Tally outcome (some r) e (inl f) c =
    let t : text_eq outcome failure ≡ true = ground (arith, f, text_eq_iff outcome failure) in
    record {
      counters = inl (f, ground (arith, t, c.fails), ground (arith, t, c.successes));
      expected = ground (arith, t, c.expected);
      next = ground (arith, t, c.next);
    }
count_sample-Tally outcome none e (inr f) c =
    let t : text_eq outcome failure ≡ false = rw f success-ne-failure in
    record {
      counters = inr (f, ground (arith, t, c.fails), ground (arith, t, c.successes));
      expected = ground (arith, t, c.expected);
      next = ground (arith, t, c.next);
    }
count_sample-Tally outcome (some r) e (inr f) c =
    let t : text_eq outcome failure ≡ false = rw f success-ne-failure in
    record {
      counters = inr (f, ground (arith, t, c.fails), ground (arith, t, c.successes));
      expected = ground (arith, t, c.expected);
      next = ground (arith, t, c.next);
    }

tallied-count :
    (outcome : Text) (current : Option AlertRuleState) (e : AlertEvaluation)
    → Counted (count_sample outcome (load current)) e
    → tallied current e ≡ count_sample outcome (load current)
unfolding count_sample
tallied-count outcome current e c = elim (Bool-cases (text_eq outcome failure)) [
  | inl t ↦ rw (c.fails, c.successes, t) refl
  | inr t ↦ rw (c.fails, c.successes, t) refl
]

module _ (decimal : ℕ → Text) (sha256_hex : Text → Text) (sha256 : List ℕ → List ℕ)
    (nfc : Text → Text) (spec : AlertRuleSpec) (outcome target : Text) (now : Datetime) where
  emit-Effect :
      (trigger : Option Text) (now_stamp : Text) (l : Loaded) {e : AlertEvaluation}
      → emit decimal sha256_hex sha256 nfc spec target now now_stamp l
          (decide_transition spec outcome trigger now_stamp l)
          trigger
        ≡ ok e
      → Counted l e × (e.update.last_sample_at ≡ now_stamp) × Effect spec outcome trigger l e
  emit-Effect none now_stamp l h =
      let (c, s, q) =
        emit-Quiet decimal sha256_hex sha256 nfc spec target now now_stamp l none
          (rw (decide_needs_trigger spec outcome now_stamp l) at h) in
      (c, s, quiet q)
  emit-Effect (some r) now_stamp l {e} h =
      elim (Option-cases (decide_transition spec outcome (some r) now_stamp l)) [
        | inl no_move ↦
            let (c, s, q) =
              emit-Quiet decimal sha256_hex sha256 nfc spec target now now_stamp l (some r)
                (rw no_move at h) in
            (c, s, quiet q)
        | inr (t, move) ↦
            let (c, s, d, m, k) =
              emit-Emitted decimal sha256_hex sha256 nfc spec target now now_stamp l t r
                (rw move at h) in
            elim (decide_cases spec outcome (some r) now_stamp l t move) [
              | inl is_firing ↦ (
                c,
                s,
                fired d
                    (rw s (decide-firing spec outcome (some r) now_stamp l (rw is_firing at move)))
                    (rw is_firing at m),
              )
              | inr is_resolved ↦ (
                c,
                s,
                recovered d
                    (decide-resolved spec outcome (some r) now_stamp l (rw is_resolved at move))
                    (rw is_resolved at m)
                    (recovery_keeps_cooldown spec now l (rw is_resolved at k)),
              )
            ]
      ]

  evaluate_inner :
      (trigger : Option Text) (now_stamp : Text) (current : Option AlertRuleState)
      {e : AlertEvaluation}
      → evaluate_canary_state_rule decimal sha256_hex sha256 nfc spec outcome trigger
          (some target)
          now
          current
        ≡ ok e
      → format_timestamp {C = AlertCode} (instant now) ≡ ok now_stamp
      → let l = count_sample outcome (load current) in
        emit decimal sha256_hex sha256 nfc spec target now now_stamp l
          (decide_transition spec outcome trigger now_stamp l)
          trigger
        ≡ ok e
  unfolding evaluate_canary_state_rule
  evaluate_inner trigger now_stamp current h es = ground (arith, es)

  pub evaluate-Counted :
      (trigger : Option Text) (current : Option AlertRuleState) {e : AlertEvaluation}
      → evaluate_canary_state_rule decimal sha256_hex sha256 nfc spec outcome trigger
          (some target)
          now
          current
        ≡ ok e
      → let l = count_sample outcome (load current) in
        Counted l e
        × (format_timestamp {C = AlertCode} (instant now) ≡ ok e.update.last_sample_at)
        × Effect spec outcome trigger l e
  unfolding evaluate_canary_state_rule
  evaluate-Counted trigger current {e} h =
      elim (Outcome-cases (format_timestamp {C = AlertCode} (instant now))) [
        | inr (x, ex) ↦ absurd (ground arith)
        | inl (s, es) ↦
            let (c, q, f) =
              emit-Effect trigger s (count_sample outcome (load current)) {e = e}
                (evaluate_inner trigger s current {e = e} h es) in
            (c, rw q es, f)
      ]

  known_outcome :
      (trigger : Option Text) (current : Option AlertRuleState) {e : AlertEvaluation}
      → evaluate_canary_state_rule decimal sha256_hex sha256 nfc spec outcome trigger
          (some target)
          now
          current
        ≡ ok e
      → (outcome ≡ failure) ⊎ (outcome ≡ success)
  unfolding evaluate_canary_state_rule text_in
  known_outcome trigger current h = elim (Bool-cases (text_eq outcome failure)) [
    | inl f ↦ inl (ground (arith, f, text_eq_iff outcome failure))
    | inr f ↦ elim (Bool-cases (text_eq outcome success)) [
      | inl t ↦ inr (ground (arith, t, text_eq_iff outcome success))
      | inr t ↦ absurd (ground (arith, f, t, h))
    ]
  ]

  -- A sample that is evaluated is a failure or a success. A failure adds one to the stored count of
  -- failures and sets the count of successes to 0, a success the other way round, both from 0 before
  -- the first sample, and the revision goes up by one. The sample then does one of three things:
  -- nothing; a firing, if it failed, the new count reaches the threshold, the stored state is not
  -- firing and the stored cooldown is over; or a recovery, if it succeeded, the new count reaches the
  -- threshold and the stored state is firing. Each transition has its draft, which cites the one
  -- trigger, and a recovery leaves the cooldown alone.
  pub evaluate-Effect :
      (trigger : Option Text) (current : Option AlertRuleState) {e : AlertEvaluation}
      → evaluate_canary_state_rule decimal sha256_hex sha256 nfc spec outcome trigger
          (some target)
          now
          current
        ≡ ok e
      → Tally outcome current e
        × (format_timestamp {C = AlertCode} (instant now) ≡ ok e.update.last_sample_at)
        × Effect spec outcome trigger (tallied current e) e
  evaluate-Effect trigger current {e} h =
      let l = count_sample outcome (load current) in
      let (c, q, f) = evaluate-Counted trigger current {e = e} h in
      (
        count_sample-Tally outcome current e (known_outcome trigger current {e = e} h) c,
        q,
        subst (λ x. Effect spec outcome trigger x e) (sym (tallied-count outcome current e c)) f,
      )

  -- A due firing is not missed: a failed sample with a trigger, at or past the threshold, on a rule
  -- that is not firing and whose cooldown is over, fires when its evaluation returns.
  pub due_firing_happens :
      (r now_stamp : Text) (current : Option AlertRuleState) {e : AlertEvaluation}
      → evaluate_canary_state_rule decimal sha256_hex sha256 nfc spec outcome
          (some r)
          (some target)
          now
          current
        ≡ ok e
      → format_timestamp {C = AlertCode} (instant now) ≡ ok now_stamp
      → MayFire spec outcome now_stamp (count_sample outcome (load current))
      → (e.transition ≡ some firing) × (e.update.current_state ≡ firing)
  due_firing_happens r now_stamp current {e} h es may =
      let l = count_sample outcome (load current) in
      let due = decide-due spec outcome (some r) now_stamp l r refl may in
      let inner = evaluate_inner (some r) now_stamp current {e = e} h es in
      let (c, s, d, m, k) =
        emit-Emitted decimal sha256_hex sha256 nfc spec target now now_stamp l firing r
          (rw due at inner) in
      (m.transition, m.new_state)
