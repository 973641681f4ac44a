-- ===== src/Runtime/Alerting/Transitions.antt =====
-- What one sample does to a rule: nothing, a firing, or a recovery.
use milhouse_oss.Prelude.{
  ℕ, ◌+◌, ◌≤◌, ◌≡◌, ◌≢◌, refl, ◌⊎◌, inl, inr, true, false, Option, none, some, [], ◌∷◌, arith, Text,
  text_eq, text_eq_iff, List,
}
use milhouse_oss.Python.Datetime.{Datetime}
use milhouse_oss.Python.Outcome.{Outcome-cases, ok}
use milhouse_oss.State.AlertState.{firing, resolved}
use milhouse_oss.Runtime.Alerting.{
  success, failure, AlertRuleSpec, AlertDraft, AlertEvaluation, Loaded, cooled_down,
  decide_transition, alert_draft, next_cooldown, emit,
}

pub firing-ne-resolved : text_eq resolved firing ≡ false
unfolding text_eq
firing-ne-resolved = refl

pub success-ne-failure : text_eq success failure ≡ false
unfolding text_eq
success-ne-failure = refl

-- The counters and the revision are stored whatever happens.
pub record Counted (l : Loaded) (e : AlertEvaluation) : Type 0 where
  pub fails : e.update.consecutive_fail_count ≡ l.fail
  pub successes : e.update.consecutive_success_count ≡ l.success_count
  pub expected : e.update.expected_revision ≡ l.revision
  pub next : e.update.revision ≡ l.revision + 1

-- Nothing is emitted, and the state, the cooldown and the last transition stay.
pub record Quiet (l : Loaded) (e : AlertEvaluation) : Type 0 where
  pub no_transition : e.transition ≡ none
  pub no_draft : e.draft ≡ none
  pub same_state : e.update.current_state ≡ l.base_state
  pub same_cooldown : e.update.cooldown_until ≡ l.cooldown_until
  pub same_last : e.update.last_transition_id ≡ l.last_transition_id

-- A draft that describes the edge from the old state to `t`, and cites the one trigger.
pub record Emitted (trigger : Option Text) (l : Loaded) (e : AlertEvaluation) (t : Text)
    (d : AlertDraft) : Type 0 where
  pub transition : e.transition ≡ some t
  pub draft : e.draft ≡ some d
  pub new_state : e.update.current_state ≡ t
  pub to : d.state ≡ t
  pub from : d.previous_state ≡ l.base_state
  pub numbered : d.revision ≡ l.revision + 1
  pub remembered : e.update.last_transition_id ≡ some d.transition_id
  pub evidence : (r : Text) × (trigger ≡ some r) × (d.evidence_ids ≡ r ∷ [])

-- Why a rule may fire, and why it may recover.
pub record MayFire (spec : AlertRuleSpec) (outcome now_stamp : Text) (l : Loaded) : Type 0 where
  pub failed : outcome ≡ failure
  pub reached : spec.consecutive_failures ≤ l.fail
  pub not_firing : l.base_state ≢ firing
  pub cooled : cooled_down l.cooldown_until now_stamp ≡ true

pub record MayRecover (spec : AlertRuleSpec) (outcome : Text) (l : Loaded) : Type 0 where
  pub succeeded : outcome ≡ success
  pub reached : spec.consecutive_successes ≤ l.success_count
  pub was_firing : l.base_state ≡ firing

module _ (spec : AlertRuleSpec) (outcome : Text) (trigger : Option Text) (now_stamp : Text)
    (l : Loaded) where
  pub decide-firing :
      decide_transition spec outcome trigger now_stamp l ≡ some firing
      → MayFire spec outcome now_stamp l
  unfolding decide_transition
  decide-firing h = ground (
    arith,
    text_eq_iff outcome failure,
    text_eq_iff l.base_state firing,
    text_eq_iff resolved firing,
    firing-ne-resolved,
  )

  pub decide-resolved :
      decide_transition spec outcome trigger now_stamp l ≡ some resolved → MayRecover spec outcome l
  unfolding decide_transition
  decide-resolved h = ground (
    arith,
    text_eq_iff outcome success,
    text_eq_iff l.base_state firing,
    text_eq_iff resolved firing,
    firing-ne-resolved,
  )

  -- The converse for a firing.
  pub decide-due :
      (r : Text)
      → trigger ≡ some r
      → MayFire spec outcome now_stamp l
      → decide_transition spec outcome trigger now_stamp l ≡ some firing
  unfolding decide_transition
  decide-due r t may = ground (arith, text_eq_iff outcome failure, text_eq_iff l.base_state firing)

  pub decide_cases :
      (t : Text)
      → decide_transition spec outcome trigger now_stamp l ≡ some t
      → (t ≡ firing) ⊎ (t ≡ resolved)
  unfolding decide_transition
  decide_cases t h = ground arith

module _ (decimal : ℕ → Text) (sha256_hex : Text → Text) (sha256 : List ℕ → List ℕ)
    (nfc : Text → Text) (spec : AlertRuleSpec) (target : Text) (now : Datetime) (now_stamp : Text)
    (l : Loaded) where
  draft_lem :
      (t r : Text) {d : AlertDraft}
      → alert_draft decimal sha256_hex sha256 nfc spec target now now_stamp l t r ≡ ok d
      → (d.state ≡ t)
        × (d.previous_state ≡ l.base_state)
        × (d.revision ≡ l.revision + 1)
        × (d.evidence_ids ≡ r ∷ [])
  unfolding alert_draft
  draft_lem t r h = ground arith

  pub emit-Quiet :
      (trigger : Option Text) {e : AlertEvaluation}
      → emit decimal sha256_hex sha256 nfc spec target now now_stamp l none trigger ≡ ok e
      → Counted l e × (e.update.last_sample_at ≡ now_stamp) × Quiet l e
  unfolding emit
  emit-Quiet trigger h = ground arith

  pub emit-Emitted :
      (t r : Text) {e : AlertEvaluation}
      → emit decimal sha256_hex sha256 nfc spec target now now_stamp l (some t) (some r) ≡ ok e
      → Counted l e
        × (e.update.last_sample_at ≡ now_stamp)
        × (d : AlertDraft) × Emitted (some r) l e t d
        × (next_cooldown spec now t l ≡ ok e.update.cooldown_until)
  unfolding emit
  emit-Emitted t r {e} h = elim (Outcome-cases (next_cooldown spec now t l)) [
    | inr (x, ex) ↦ absurd (ground arith)
    | inl (c, ec) ↦
        elim (Outcome-cases
          (alert_draft decimal sha256_hex sha256 nfc spec target now now_stamp l t r)) [
            | inr (x, ex) ↦ absurd (ground arith)
            | inl (d, ed) ↦
                let (d1, d2, d3, d4) = draft_lem t r ed in
                (
                  ground arith,
                  ground arith,
                  d,
                  record {
                    transition = ground arith;
                    draft = ground arith;
                    new_state = ground arith;
                    to = d1;
                    from = d2;
                    numbered = d3;
                    remembered = ground arith;
                    evidence = (r, refl, d4);
                  },
                  ground arith,
                )
          ]
  ]
