-- ===== src/Spooling/Agreement.antt =====
-- `_agrees` of src/milhouse/spooling/reconcile.py: a durable segment and the row of the ledger.
use milhouse_oss.Prelude.{Bool, ◌&&◌, List, ◌==◌, all, map, Text, text_eq, text_in}
use milhouse_oss.Spooling.Ledger.{SegmentRecord, ExporterDelivery, delivered}
use milhouse_oss.Spooling.Writer.{same_target}
use milhouse_oss.Spooling.Reader.{ParsedSegment}

abbrev within : List Text → List Text → Bool
within ids others = all (λ s. text_in s others) ids

-- `set(ids) == set(others)`
unfoldable pub same_set : List Text → List Text → Bool
same_set ids others = within ids others && within others ids

unfoldable pub agrees : ParsedSegment → Text → Text → SegmentRecord → Bool
unfolding same_set
agrees parsed day batch_id s =
    text_eq parsed.header.batch_id batch_id
    && text_eq batch_id s.row.batch_id
    && text_eq day s.row.day
    && (s.row.schema_version == 1)
    && (s.row.frame_version == 1)
    && text_eq parsed.header.config_generation s.row.config_generation
    && text_eq parsed.header.scope s.row.scope
    && same_target parsed.header.target_id s.row.target_id
    && text_eq parsed.header.privacy_class s.row.privacy_class
    && (parsed.header.retention_days == s.row.retention_days)
    && (parsed.header.record_count == s.row.record_count)
    && text_eq parsed.header.content_sha256 s.row.content_sha256
    && (parsed.byte_size == s.row.byte_size)
    && text_eq parsed.file_sha256 s.row.file_sha256
    && same_set parsed.header.required_exporters (map ExporterDelivery.exporter_id s.exporters)

abbrev pub is_delivered : ExporterDelivery → Bool
is_delivered d = text_eq d.delivery_status delivered

-- `all(exporter.delivery_status == _DELIVERED for exporter in record.exporters)`
abbrev pub all_delivered : SegmentRecord → Bool
all_delivered s = all is_delivered s.exporters
