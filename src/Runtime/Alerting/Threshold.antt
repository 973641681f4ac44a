-- ===== src/Runtime/Alerting/Threshold.antt =====
-- A rule that starts afresh fires exactly at its threshold of consecutive failures.
use milhouse_oss.Prelude.{
  ℕ, ◌+◌, ◌<◌, ◌≡◌, ◌≢◌, refl, Option, none, some, List, [], ◌∷◌, arith, Text, text_eq_iff,
  text_eq_refl, length, All,
}
use milhouse_oss.Python.Datetime.{Datetime}
use milhouse_oss.Python.Outcome.{ok, bind-ok}
use milhouse_oss.State.Schema.{AlertRuleState}
use milhouse_oss.State.AlertState.{firing}
use milhouse_oss.Runtime.Alerting.{
  success, failure, AlertRuleSpec, AlertEvaluation, load, count_sample,
}
use milhouse_oss.Runtime.Alerting.Transitions.{Counted, MayFire, success-ne-failure}
use milhouse_oss.Runtime.Alerting.Engine.{Effect, quiet, fired, recovered, due_firing_happens}
use milhouse_oss.Runtime.Alerting.Runs.{Sample, persisted, evaluate, evaluate_sample, run}

-- Failures do not fire, and only count, while they stay below the threshold.
abbrev pub Calm : Option AlertRuleState → Type 0
Calm current = ((load current).base_state ≢ firing) × ((load current).cooldown_until ≡ none)

abbrev pub IsFailure : Sample → Type 0
IsFailure s = s.outcome ≡ failure

abbrev pub IsNone : Option Text → Type 0
IsNone t = t ≡ none

abbrev pub fails : Option AlertRuleState → ℕ
fails current = (load current).fail

fails_none : fails none ≡ 0
unfolding load
fails_none = refl

Calm-none : Calm none
unfolding load
Calm-none = ((λ h. cc h), refl)

module _ (decimal : ℕ → Text) (sha256_hex : Text → Text) (sha256 : List ℕ → List ℕ)
    (nfc : Text → Text) (spec : AlertRuleSpec) (target : Text) where
  abbrev next_row : AlertEvaluation → Option AlertRuleState
  next_row e = some (persisted spec e.update)

  Calm-Effect :
      (s : Sample) (current : Option AlertRuleState) (e : AlertEvaluation)
      → IsFailure s
      → Calm current
      → fails current + 1 < spec.consecutive_failures
      → Counted (count_sample s.outcome (load current)) e
      → Effect spec s.outcome s.trigger (count_sample s.outcome (load current)) e
      → IsNone e.transition × Calm (next_row e) × (fails (next_row e) ≡ fails current + 1)
  unfolding load count_sample persisted
  Calm-Effect s current e bad (c1, c2) below c (quiet q) = (
    q.no_transition,
    (
      λ h. c1 (ground (arith, text_eq_iff s.outcome failure)),
      ground (arith, text_eq_iff s.outcome failure),
    ),
    ground (arith, text_eq_iff s.outcome failure),
  )
  Calm-Effect s current e bad (c1, c2) below c (fired d may m) =
      absurd (ground (arith, may.reached, text_eq_iff s.outcome failure))
  Calm-Effect s current e bad (c1, c2) below c (recovered d may m k) =
      absurd (ground (arith, may.succeeded, text_eq_iff success failure, success-ne-failure))

  Calm-step :
      (s : Sample) (current : Option AlertRuleState) {e : AlertEvaluation}
      → IsFailure s
      → Calm current
      → fails current + 1 < spec.consecutive_failures
      → evaluate decimal sha256_hex sha256 nfc spec target s current ≡ ok e
      → IsNone e.transition × Calm (next_row e) × (fails (next_row e) ≡ fails current + 1)
  Calm-step s current {e} bad calm below h =
      let (c, f, effect) = evaluate_sample decimal sha256_hex sha256 nfc spec target s current h in
      Calm-Effect s current e bad calm below c effect

  -- Failures below the threshold make no transition, and are counted one by one.
  pub Calm-run :
      (ss : List Sample) (current : Option AlertRuleState) {ts : List (Option Text)}
      {last : Option AlertRuleState}
      → All IsFailure ss
      → Calm current
      → fails current + length ss < spec.consecutive_failures
      → run decimal sha256_hex sha256 nfc spec target ss current ≡ ok (ts, last)
      → All IsNone ts × Calm last × (fails last ≡ fails current + length ss)
  unfolding run
  Calm-run [] current {ts} {last} bad calm below h =
      let e : ts ≡ [] = ground arith in
      let f : last ≡ current = ground arith in (rw e tt, rw f calm, rw f (omega arith))
  Calm-run (s ∷ ss) current {ts} {last} (b, bad) calm below h =
      let (e, he, h1) =
        bind-ok (evaluate decimal sha256_hex sha256 nfc spec target s current) _ h in
      let (rest, hr, h2) =
        bind-ok (run decimal sha256_hex sha256 nfc spec target ss (next_row e)) _ h1 in
      let shape : ts ≡ e.transition ∷ rest.0 = ground arith in
      let at_end : last ≡ rest.1 = ground arith in
      let (quiet_now, calm', counted) = Calm-step s current b calm (omega arith) he in
      let (quiet_later, calm_end, total) =
        Calm-run ss (next_row e) {ts = rest.0} {last = rest.1} bad calm' (omega (arith, counted))
          hr in
      (
        rw shape (quiet_now, quiet_later),
        rw at_end calm_end,
        rw at_end (omega (arith, counted, total)),
      )

  may_fire :
      (last : Option AlertRuleState) (now_stamp : Text)
      → Calm last
      → fails last + 1 ≡ spec.consecutive_failures
      → MayFire spec failure now_stamp (count_sample failure (load last))
  unfolding count_sample
  may_fire last now_stamp (c1, c2) reached =
      let failed = text_eq_refl failure in
      record {
        failed = refl;
        reached = ground arith;
        not_firing = λ h. c1 (ground arith);
        cooled = ground arith;
      }

  -- From a rule with no row, where the evaluations return: as many failures as one less than the
  -- threshold make no transition, and the next failure, if it comes with a record to cite, fires.
  pub fires_at_threshold :
      (ss : List Sample) (now : Datetime) (r : Text) {ts : List (Option Text)}
      {last : Option AlertRuleState} {e : AlertEvaluation}
      → All IsFailure ss
      → length ss + 1 ≡ spec.consecutive_failures
      → run decimal sha256_hex sha256 nfc spec target ss none ≡ ok (ts, last)
      → evaluate decimal sha256_hex sha256 nfc spec target
          (record { outcome = failure; trigger = some r; now = now })
          last
        ≡ ok e
      → All IsNone ts × (e.transition ≡ some firing)
  unfolding evaluate
  fires_at_threshold ss now r {ts} {last} {e} bad len h he =
      let (quiet_before, calm, counted) =
        Calm-run ss none {ts = ts} {last = last} bad Calm-none (omega (arith, fails_none)) h in
      let (c, stamped, effect) =
        evaluate_sample decimal sha256_hex sha256 nfc spec target
          (record { outcome = failure; trigger = some r; now = now }) last he in
      let may = may_fire last e.update.last_sample_at calm (omega (arith, counted, fails_none)) in
      let (fired_now, state) =
        due_firing_happens decimal sha256_hex sha256 nfc spec failure target now r
          e.update.last_sample_at last he stamped may in
      (quiet_before, fired_now)
