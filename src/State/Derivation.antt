-- ===== src/State/Derivation.antt =====
-- src/milhouse/state/derivation.py: per-rule derivation checkpoints, by compare-and-set.
pub mod Cas
use milhouse_oss.Prelude.{ℕ, ◌+◌, ◌≡◌, Bool, Option, none, some, ◌==◌, ◌&&◌, Text, text_eq}
use milhouse_oss.Python.Value.{Value}
use milhouse_oss.Core.Clock.{format_timestamp}
use milhouse_oss.State.Errors.{StateCode}
use milhouse_oss.State.Schema.{DerivationCheckpoint, Tables}
use milhouse_oss.State.Table.{find, upsert}
use milhouse_oss.State.Validate.{validate_identifier, validate_at_least}
use milhouse_oss.State.Database.{
  Action, ◌>>=◌, ◌>>◌, pure, lift, select, change, execute, bind_integer, bind_text, require,
  connection, transaction, attempt, attempt_sqlite,
}

abbrev pub is_checkpoint : Text → ℕ → DerivationCheckpoint → Bool
is_checkpoint rule version r = text_eq r.rule rule && (r.rule_version == version)

unfoldable pub stored_checkpoint : Text → ℕ → Tables → Option DerivationCheckpoint
stored_checkpoint rule version t = find (is_checkpoint rule version) t.checkpoints

abbrev pub checkpoint_revision : Option DerivationCheckpoint → ℕ
checkpoint_revision none = 0
checkpoint_revision (some r) = r.revision

unfoldable pub put_checkpoint : DerivationCheckpoint → Tables → Tables
put_checkpoint c t = record t {
  checkpoints = upsert (is_checkpoint c.rule c.rule_version) c t.checkpoints;
}

-- Only `sqlite3.Error` is caught here, so the UnicodeEncodeError of a rule with a lone surrogate and
-- the OverflowError of a version beyond 64 bits escape.
unfoldable pub read_checkpoint : Value → Value → Action (Option DerivationCheckpoint)
unfolding validate_identifier validate_at_least connection execute bind_integer bind_text
read_checkpoint rule_value version_value = do
  rule ← lift (validate_identifier rule_value StateCode.derivation_rule)
  version ← lift (validate_at_least 1 version_value StateCode.derivation_version)
  attempt_sqlite StateCode.derivation (
      connection
        (bind_text rule >> bind_integer version >> select (stored_checkpoint rule version)))

-- The body of the transaction of `advance_checkpoint`.
unfoldable pub advance_rows : Text → ℕ → Text → ℕ → Text → Action DerivationCheckpoint
unfolding execute bind_integer bind_text put_checkpoint
advance_rows rule version position expected updated_at = do
  bind_text rule
  bind_integer version
  existing ← select (stored_checkpoint rule version)
  require (checkpoint_revision existing == expected) StateCode.derivation_conflict
  let revision : ℕ = checkpoint_revision existing + 1
  bind_text position
  bind_integer revision
  let c : DerivationCheckpoint = record {
    rule = rule;
    rule_version = version;
    position = position;
    revision = revision;
    updated_at = updated_at;
  }
  change (put_checkpoint c)
  pure c

-- The `try` block of `advance_checkpoint`, over tested arguments.
unfoldable pub advance_valid : Text → ℕ → Text → Value → ℕ → Action DerivationCheckpoint
unfolding advance_rows transaction
advance_valid rule version position now expected = attempt StateCode.derivation (do
  updated_at ← lift (format_timestamp now)
  transaction (advance_rows rule version position expected updated_at))

unfoldable pub advance_checkpoint :
    Value → Value → Value → Value → Value → Action DerivationCheckpoint
unfolding advance_valid validate_identifier validate_at_least
advance_checkpoint rule_value version_value position_value now expected_value = do
  rule ← lift (validate_identifier rule_value StateCode.derivation_rule)
  version ← lift (validate_at_least 1 version_value StateCode.derivation_version)
  position ← lift (validate_identifier position_value StateCode.derivation_position)
  expected ← lift (validate_at_least 0 expected_value StateCode.derivation_revision)
  advance_valid rule version position now expected
