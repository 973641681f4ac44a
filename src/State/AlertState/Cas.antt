-- ===== src/State/AlertState/Cas.antt =====
-- `advance_alert_state` against its contract.
use milhouse_oss.Prelude.{
  ℕ, ◌+◌, ◌∙◌, ◌≡◌, ◌≢◌, inl, inr, true, some, arith, pos, Text, text_eq_refl, text_in,
}
use milhouse_oss.Python.Value.{Value, str, int}
use milhouse_oss.Python.Outcome.{Outcome-cases, ok}
use milhouse_oss.Core.Clock.{format_timestamp}
use milhouse_oss.State.Errors.{StateCode}
use milhouse_oss.State.Schema.{AlertRuleState, Tables}
use milhouse_oss.State.Table.{find-upsert_self}
use milhouse_oss.State.Validate.{
  validate_identifier, validate_at_least, validate_optional_text, validate_identifier-str,
  validate_at_least-int,
}
use milhouse_oss.State.Database.{ControlDatabase}
use milhouse_oss.State.Database.Atomic.{begun, transaction-ok, lift-bind-ok, IsAtomic, atomic_rules}
use milhouse_oss.State.AlertState.{
  alert_states, validate_state, is_rule, stored_state, state_revision, put_state, NewState,
  Contents, advance_rows, advance_valid, advance_alert_state,
}

-- What an advance has done, whatever the new contents are.
pub record Advanced (before after : Tables) (expected : ℕ) (s : AlertRuleState) : Type 0 where
  pub observed : state_revision (stored_state s.rule_id s.rule_version before) ≡ expected
  pub next : s.revision ≡ expected + 1
  pub stored : after ≡ put_state s before

abbrev contents_of : AlertRuleState → Contents
contents_of s = record {
  consecutive_fail_count = s.consecutive_fail_count;
  consecutive_success_count = s.consecutive_success_count;
  current_state = s.current_state;
  cooldown_until = s.cooldown_until;
  last_sample_at = s.last_sample_at;
  last_transition_id = s.last_transition_id;
}

module _ (rule_id : Text) (version : ℕ) (contents : Contents) (expected : ℕ) where
  advance_rows-Advanced :
      (updated_at : Text) (db : ControlDatabase) {s : AlertRuleState}
      → let m = advance_rows rule_id version contents expected updated_at in
        (m db).0 ≡ ok s
        → (s.rule_id ≡ rule_id)
          × (s.rule_version ≡ version)
          × (contents_of s ≡ contents)
          × Advanced db.tables (m db).1.tables expected s
  unfolding advance_rows
  advance_rows-Advanced updated_at db {s} h = ground arith

  advance_valid-Advanced :
      (now : Value) (db : ControlDatabase) {s : AlertRuleState}
      → let m = advance_valid rule_id version contents now expected in
        (m db).0 ≡ ok s
        → (s.rule_id ≡ rule_id)
          × (s.rule_version ≡ version)
          × (contents_of s ≡ contents)
          × Advanced db.tables (m db).1.tables expected s
  unfolding advance_valid
  advance_valid-Advanced now db {s} h =
      elim (Outcome-cases (format_timestamp {C = StateCode} now)) [
        | inr (e, es) ↦ ground arith
        | inl (a, es) ↦
            let m = advance_rows rule_id version contents expected a in
            ground (arith, transaction-ok m db {a = s}, advance_rows-Advanced a (begun db) {s = s})
      ]

validate_state-in : (v : Value) {s : Text} → validate_state v ≡ ok s → text_in s alert_states ≡ true
unfolding validate_state
validate_state-in (str s) h = ground arith
validate_state-in _ h = cc

module _ (rule version : Value) (new : NewState) (now expected : Value) where
  pub advance_alert_state_inv :
      (db : ControlDatabase) {s : AlertRuleState}
      → (advance_alert_state rule version new now expected db).0 ≡ ok s
      → (n : ℕ) × (rule ≡ str s.rule_id)
        × (version ≡ int (pos s.rule_version))
        × (new.consecutive_fail_count ≡ int (pos s.consecutive_fail_count))
        × (new.consecutive_success_count ≡ int (pos s.consecutive_success_count))
        × (text_in s.current_state alert_states ≡ true)
        × (expected ≡ int (pos n))
        × Advanced db.tables (advance_alert_state rule version new now expected db).1.tables n s
  unfolding advance_alert_state
  advance_alert_state_inv db {s} h =
      let (i, ei, e1, h1) = lift-bind-ok (validate_identifier rule StateCode.alert_rule) _ db h in
      let (v, ev, e2, h2) =
        lift-bind-ok (validate_at_least 1 version StateCode.alert_version) _ db h1 in
      let (f, ef, e3, h3) =
        lift-bind-ok (validate_at_least 0 new.consecutive_fail_count StateCode.alert_count) _ db
          h2 in
      let (g, eg, e4, h4) =
        lift-bind-ok (validate_at_least 0 new.consecutive_success_count StateCode.alert_count) _ db
          h3 in
      let (c, ec, e5, h5) = lift-bind-ok (validate_state new.current_state) _ db h4 in
      let (u, eu, e6, h6) =
        lift-bind-ok (validate_optional_text new.cooldown_until StateCode.alert_timestamp) _ db
          h5 in
      let (l, el, e7, h7) =
        lift-bind-ok (validate_optional_text new.last_sample_at StateCode.alert_timestamp) _ db
          h6 in
      let (t, et, e8, h8) =
        lift-bind-ok (validate_optional_text new.last_transition_id StateCode.alert_transition) _ db
          h7 in
      let (n, en, e9, h9) =
        lift-bind-ok (validate_at_least 0 expected StateCode.alert_revision) _ db h8 in
      let fi = validate_identifier-str rule StateCode.alert_rule ei in
      let fv = validate_at_least-int 1 version StateCode.alert_version ev in
      let ff = validate_at_least-int 0 new.consecutive_fail_count StateCode.alert_count ef in
      let fg = validate_at_least-int 0 new.consecutive_success_count StateCode.alert_count eg in
      let fc = validate_state-in new.current_state ec in
      let contents : Contents = record {
        consecutive_fail_count = f;
        consecutive_success_count = g;
        current_state = c;
        cooldown_until = u;
        last_sample_at = l;
        last_transition_id = t;
      } in
      let (gi, gv, gc, a) = advance_valid-Advanced i v contents n now db h9 in
      (
        n,
        ground arith,
        ground arith,
        ground arith,
        ground arith,
        ground arith,
        validate_at_least-int 0 expected StateCode.alert_revision en,
        ground (arith, e1 ∙ e2 ∙ e3 ∙ e4 ∙ e5 ∙ e6 ∙ e7 ∙ e8 ∙ e9),
      )

  pub advance_alert_state-IsAtomic : IsAtomic (advance_alert_state rule version new now expected)
  unfolding advance_alert_state advance_valid
  advance_alert_state-IsAtomic = search atomic_rules depth 24

pub stored-put_state_self :
    (s : AlertRuleState) (t : Tables)
    → stored_state s.rule_id s.rule_version (put_state s t) ≡ some s
unfolding put_state stored_state
stored-put_state_self s t =
    find-upsert_self (is_rule s.rule_id s.rule_version) s t.alert_states
      (ground (arith, text_eq_refl s.rule_id))

-- Two passes over one rule and version that saw the same revision: the second to come fails,
-- whatever it would write, and leaves every table as the first one left it.
pub double_advance_refused :
    (rule version : Value) (new new' : NewState) (now now' expected : Value) (db : ControlDatabase)
    {s : AlertRuleState}
    → (advance_alert_state rule version new now expected db).0 ≡ ok s
    → let after = (advance_alert_state rule version new now expected db).1 in
      let (result, last) = advance_alert_state rule version new' now' expected after in
      ((d : AlertRuleState) → result ≢ ok d) × (last.tables ≡ after.tables)
double_advance_refused rule version new new' now now' expected db {s} h =
    let after = (advance_alert_state rule version new now expected db).1 in
    let (n, e1, e2, e3, e4, e5, e6, a) =
      advance_alert_state_inv rule version new now expected db h in
    let refuse : (d : AlertRuleState)
        → (advance_alert_state rule version new' now' expected after).0 ≢ ok d =
      λ d h'.
        let (n', e1', e2', e3', e4', e5', e6', a') =
          advance_alert_state_inv rule version new' now' expected after h' in
        ground (arith, stored-put_state_self s db.tables) in
    elim (Outcome-cases (advance_alert_state rule version new' now' expected after).0) [
      | inl (d, h') ↦ absurd (refuse d h')
      | inr (e, h') ↦ (
        refuse,
        (advance_alert_state-IsAtomic rule version new' now' expected).unchanged after e h',
      )
    ]
