-- ===== src/State/Schema.antt =====
-- src/milhouse/state/schema.py, after its last migration: the rows of the control database. The
-- dataclasses of the modules that read a table have the same columns.
use milhouse_oss.Prelude.{ℕ, Option, none, List, [], Text}

-- `_leases`
pub record Lease : Type 0 where
  pub name : Text
  pub holder : Text
  pub fence : ℕ
  pub acquired_at : Text
  pub expires_at : Text

-- `_segments`
pub record SegmentRow : Type 0 where
  pub batch_id : Text
  pub day : Text
  pub schema_version : ℕ
  pub frame_version : ℕ
  pub config_generation : Text
  pub scope : Text
  pub target_id : Option Text
  pub privacy_class : Text
  pub retention_days : ℕ
  pub record_count : ℕ
  pub content_sha256 : Text
  pub byte_size : ℕ
  pub file_sha256 : Text
  pub committed_at : Text
  pub origin : Text

-- `_segment_exporters`
pub record ExporterRow : Type 0 where
  pub batch_id : Text
  pub exporter_id : Text
  pub delivery_status : Text

-- `_cursors`; `batch_id` is NULL once its segment has been pruned.
pub record SourceCursor : Type 0 where
  pub source : Text
  pub position : Text
  pub batch_id : Option Text
  pub revision : ℕ
  pub updated_at : Text

-- `_derivation_checkpoints`
pub record DerivationCheckpoint : Type 0 where
  pub rule : Text
  pub rule_version : ℕ
  pub position : Text
  pub revision : ℕ
  pub updated_at : Text

-- `_retirements`
pub record Retirement : Type 0 where
  pub batch_id : Text
  pub day : Text
  pub file_sha256 : Text
  pub retired_at : Text

-- `_alert_rule_state`
pub record AlertRuleState : Type 0 where
  pub rule_id : Text
  pub rule_version : ℕ
  pub consecutive_fail_count : ℕ
  pub consecutive_success_count : ℕ
  pub current_state : Text
  pub cooldown_until : Option Text
  pub last_sample_at : Option Text
  pub last_transition_id : Option Text
  pub revision : ℕ
  pub updated_at : Text

-- `_audit`, and `AuditRecord`
pub record AuditRecord : Type 0 where
  pub id : ℕ
  pub recorded_at : Text
  pub action : Text
  pub actor : Text
  pub outcome : Text
  pub resource : Option Text
  pub reason : Option Text
  pub record_count : Option ℕ
  pub byte_size : Option ℕ
  pub content_sha256 : Option Text
  pub file_sha256 : Option Text

-- `_schema_migrations`
pub record SchemaMigration : Type 0 where
  pub version : ℕ
  pub name : Text
  pub checksum : Text
  pub applied_at : Text

-- The tables that the modelled modules read and write.
pub record Tables : Type 0 where
  pub leases : List Lease
  pub segments : List SegmentRow
  pub segment_exporters : List ExporterRow
  pub cursors : List SourceCursor
  pub checkpoints : List DerivationCheckpoint
  pub retirements : List Retirement
  pub alert_states : List AlertRuleState
  pub audit : List AuditRecord
  -- The last id that AUTOINCREMENT has given to `audit`.
  pub audit_sequence : ℕ
  -- None before the table is created.
  pub schema_migrations : Option (List SchemaMigration)

abbrev pub empty_tables : Tables
empty_tables = record {
  leases = [];
  segments = [];
  segment_exporters = [];
  cursors = [];
  checkpoints = [];
  retirements = [];
  alert_states = [];
  audit = [];
  audit_sequence = 0;
  schema_migrations = none;
}
