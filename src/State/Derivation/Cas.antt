-- ===== src/State/Derivation/Cas.antt =====
-- `advance_checkpoint` against its contract.
use milhouse_oss.Prelude.{
  ℕ, ◌+◌, ◌^◌, ◌<◌, ◌∙◌, sym, ◌≡◌, ◌≢◌, inl, inr, true, false, some, arith, pos, Text, text_eq_iff,
  text_eq_refl,
}
use milhouse_oss.Python.Value.{Value, str, int}
use milhouse_oss.Python.Outcome.{Outcome-cases, ok}
use milhouse_oss.Core.Clock.{format_timestamp}
use milhouse_oss.State.Errors.{StateCode}
use milhouse_oss.State.Schema.{DerivationCheckpoint, Tables}
use milhouse_oss.State.Table.{find-upsert_self}
use milhouse_oss.State.Validate.{
  validate_identifier, validate_at_least, validate_identifier-str, validate_at_least-int,
}
use milhouse_oss.State.Database.{ControlDatabase, is_encodable, next_fault}
use milhouse_oss.State.Database.Atomic.{begun, transaction-ok, lift-bind-ok, IsAtomic, atomic_rules}
use milhouse_oss.State.Derivation.{
  is_checkpoint, stored_checkpoint, checkpoint_revision, put_checkpoint, read_checkpoint,
  advance_rows, advance_valid, advance_checkpoint,
}

-- What an advance has done.
pub record Advanced (before after : Tables) (expected : ℕ) (c : DerivationCheckpoint) : Type 0 where
  pub observed : checkpoint_revision (stored_checkpoint c.rule c.rule_version before) ≡ expected
  pub next : c.revision ≡ expected + 1
  pub encoded : is_encodable c.rule ≡ true
  pub fits : c.rule_version < 2 ^ 63
  pub stored : after ≡ put_checkpoint c before

advance_rows-Advanced :
    (rule : Text) (version : ℕ) (position : Text) (expected : ℕ) (updated_at : Text)
    (db : ControlDatabase) {c : DerivationCheckpoint}
    → let m = advance_rows rule version position expected updated_at in
      (m db).0 ≡ ok c
      → (c.rule ≡ rule)
        × (c.rule_version ≡ version)
        × (c.position ≡ position)
        × Advanced db.tables (m db).1.tables expected c
unfolding advance_rows
advance_rows-Advanced rule version position expected updated_at db {c} h = ground arith

advance_valid-Advanced :
    (rule : Text) (version : ℕ) (position : Text) (now : Value) (expected : ℕ)
    (db : ControlDatabase) {c : DerivationCheckpoint}
    → let m = advance_valid rule version position now expected in
      (m db).0 ≡ ok c
      → (c.rule ≡ rule)
        × (c.rule_version ≡ version)
        × (c.position ≡ position)
        × Advanced db.tables (m db).1.tables expected c
unfolding advance_valid
advance_valid-Advanced rule version position now expected db {c} h =
    elim (Outcome-cases (format_timestamp {C = StateCode} now)) [
      | inr (e, es) ↦ ground arith
      | inl (a, es) ↦
          let m = advance_rows rule version position expected a in
          ground (
            arith,
            transaction-ok m db {a = c},
            advance_rows-Advanced rule version position expected a (begun db) {c = c},
          )
    ]

module _ (rule version position now expected : Value) where
  pub advance_checkpoint_inv :
      (db : ControlDatabase) {c : DerivationCheckpoint}
      → (advance_checkpoint rule version position now expected db).0 ≡ ok c
      → (n : ℕ) × (rule ≡ str c.rule)
        × (version ≡ int (pos c.rule_version))
        × (position ≡ str c.position)
        × (expected ≡ int (pos n))
        × Advanced db.tables (advance_checkpoint rule version position now expected db).1.tables n c
  unfolding advance_checkpoint
  advance_checkpoint_inv db {c} h =
      let (s, es, e1, h1) =
        lift-bind-ok (validate_identifier rule StateCode.derivation_rule) _ db h in
      let (v, ev, e2, h2) =
        lift-bind-ok (validate_at_least 1 version StateCode.derivation_version) _ db h1 in
      let (p, ep, e3, h3) =
        lift-bind-ok (validate_identifier position StateCode.derivation_position) _ db h2 in
      let (n, en, e4, h4) =
        lift-bind-ok (validate_at_least 0 expected StateCode.derivation_revision) _ db h3 in
      let fs = validate_identifier-str rule StateCode.derivation_rule es in
      let fv = validate_at_least-int 1 version StateCode.derivation_version ev in
      let fp = validate_identifier-str position StateCode.derivation_position ep in
      let (gs, gv, gp, g) = advance_valid-Advanced s v p now n db h4 in
      (
        n,
        ground arith,
        ground arith,
        ground arith,
        validate_at_least-int 0 expected StateCode.derivation_revision en,
        ground (arith, e1 ∙ e2 ∙ e3 ∙ e4),
      )

  -- The key of an advance that returned has passed its tests.
  tested_key :
      (db : ControlDatabase) {c : DerivationCheckpoint}
      → (advance_checkpoint rule version position now expected db).0 ≡ ok c
      → (validate_identifier rule StateCode.derivation_rule ≡ ok c.rule)
        × (validate_at_least 1 version StateCode.derivation_version ≡ ok c.rule_version)
  unfolding advance_checkpoint
  tested_key db {c} h =
      let (s, es, e1, h1) =
        lift-bind-ok (validate_identifier rule StateCode.derivation_rule) _ db h in
      let (v, ev, e2, h2) =
        lift-bind-ok (validate_at_least 1 version StateCode.derivation_version) _ db h1 in
      let (n, f1, f2, f3, f4, a) = advance_checkpoint_inv db h in
      let fs = validate_identifier-str rule StateCode.derivation_rule es in
      let fv = validate_at_least-int 1 version StateCode.derivation_version ev in
      let same : str s ≡ str c.rule = sym fs ∙ f1 in
      let same' : int (pos v) ≡ int (pos c.rule_version) = sym fv ∙ f2 in
      (cc (es, same), cc (ev, same'))

  pub advance_checkpoint-IsAtomic : IsAtomic (advance_checkpoint rule version position now expected)
  unfolding advance_checkpoint advance_valid
  advance_checkpoint-IsAtomic = search atomic_rules depth 12

-- The primary key has two columns.
key_self :
    (rule : Text) (version : ℕ) (c : DerivationCheckpoint)
    → c.rule ≡ rule
    → c.rule_version ≡ version
    → is_checkpoint rule version c ≡ true
key_self rule version c h k = ground (arith, text_eq_iff c.rule rule)

pub stored-put_checkpoint_self :
    (c : DerivationCheckpoint) (t : Tables)
    → stored_checkpoint c.rule c.rule_version (put_checkpoint c t) ≡ some c
unfolding put_checkpoint stored_checkpoint
stored-put_checkpoint_self c t =
    find-upsert_self (is_checkpoint c.rule c.rule_version) c t.checkpoints
      (ground (arith, text_eq_refl c.rule))

-- Two passes over one rule and version that saw the same revision: the second to come fails, and
-- leaves every table as the first one left it.
pub second_pass_refused :
    (rule version position now expected position' now' : Value) (db : ControlDatabase)
    {c : DerivationCheckpoint}
    → (advance_checkpoint rule version position now expected db).0 ≡ ok c
    → let after = (advance_checkpoint rule version position now expected db).1 in
      let (result, last) = advance_checkpoint rule version position' now' expected after in
      ((d : DerivationCheckpoint) → result ≢ ok d) × (last.tables ≡ after.tables)
second_pass_refused rule version position now expected position' now' db {c} h =
    let after = (advance_checkpoint rule version position now expected db).1 in
    let (n, e1, e2, e3, e4, a) = advance_checkpoint_inv rule version position now expected db h in
    let refuse : (d : DerivationCheckpoint)
        → (advance_checkpoint rule version position' now' expected after).0 ≢ ok d =
      λ d h'.
        let (n', e1', e2', e3', e4', a') =
          advance_checkpoint_inv rule version position' now' expected after h' in
        ground (arith, stored-put_checkpoint_self c db.tables) in
    elim (Outcome-cases (advance_checkpoint rule version position' now' expected after).0) [
      | inl (d, h') ↦ absurd (refuse d h')
      | inr (e, h') ↦ (
        refuse,
        (advance_checkpoint-IsAtomic rule version position' now' expected).unchanged after e h',
      )
    ]

-- A checkpoint that was advanced is read back as it was returned, while the database is open and
-- answers.
pub read-advance_checkpoint :
    (rule version position now expected : Value) (db : ControlDatabase) {c : DerivationCheckpoint}
    → (advance_checkpoint rule version position now expected db).0 ≡ ok c
    → let after = (advance_checkpoint rule version position now expected db).1 in
      after.closed ≡ false
      → next_fault after.faults ≡ false
      → (read_checkpoint rule version after).0 ≡ ok (some c)
unfolding read_checkpoint
read-advance_checkpoint rule version position now expected db {c} h open_after live =
    let (n, e1, e2, e3, e4, a) = advance_checkpoint_inv rule version position now expected db h in
    let (t1, t2) = tested_key rule version position now expected db h in
    ground (arith, t1, t2, a.encoded, a.fits, a.stored, stored-put_checkpoint_self c db.tables)
