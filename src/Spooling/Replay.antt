-- ===== src/Spooling/Replay.antt =====
-- src/milhouse/spooling/replay.py: every committed segment read again, and offered to its exporters.
pub mod Repeat
use milhouse_oss.Prelude.{
  ℕ, Bool, true, false, not, ◌||◌, Option, none, some, List, [], ◌∷◌, ◌++◌, ◌==◌, if◌then◌else◌,
  length, map, Text, text_eq,
}
use milhouse_oss.Python.Datetime.{Datetime}
use milhouse_oss.Python.Outcome.{Outcome, ok, raised, fault, fail_if}
use milhouse_oss.Spooling.Job.{
  SpoolCode, replay_fault, Job, World, pure, lift, ◌>>=◌, ◌>>◌, Barrier,
}
use milhouse_oss.Spooling.Segment.{SpoolFrame}
use milhouse_oss.Spooling.Reader.{ParsedSegment}
use milhouse_oss.Spooling.Ledger.{SegmentRecord, list_segment_records}
use milhouse_oss.Spooling.Export.{Exporter, ExporterAttempt, deliver_segment}

pub record ReplayReport : Type 0 where
  pub segments : List Text
  pub record_ids : List Text
  pub delivery_attempts : List ExporterAttempt

-- `_verify_against_ledger`
unfoldable pub verify_against_ledger : ParsedSegment → SegmentRecord → Outcome SpoolCode (Unit {0})
verify_against_ledger p s =
    fail_if
      (not (text_eq p.file_sha256 s.row.file_sha256)
        || not (p.byte_size == s.row.byte_size)
        || not (text_eq p.header.content_sha256 s.row.content_sha256)
        || not (length p.frames == s.row.record_count))
      replay_fault

abbrev pub ids_of : List SpoolFrame → List Text
ids_of fs = map SpoolFrame.record_id fs

-- What one turn of the loop adds to the lists of the report.
abbrev pub prepend :
    SegmentRecord → ParsedSegment → List ExporterAttempt → ReplayReport → ReplayReport
prepend s p attempts r = record {
  segments = s.row.batch_id ∷ r.segments;
  record_ids = ids_of p.frames ++ r.record_ids;
  delivery_attempts = attempts ++ r.delivery_attempts;
}

-- `hexdigest` is the digest of `spool_content_sha256`, `read day batch_id` is `read_trusted_segment` of
-- `pending/<day>/<batch_id>.jsonl`, `exporters` the mapping.
module _ (hexdigest : Text → Text) (read : Text → Text → Outcome SpoolCode ParsedSegment)
    (barrier : Barrier) (exporters : Text → Option Exporter) (now : Datetime) where
  unfoldable pub replay_all : List SegmentRecord → Job ReplayReport
  unfolding verify_against_ledger deliver_segment
  replay_all [] = pure (record { segments = []; record_ids = []; delivery_attempts = [] })
  replay_all (s ∷ ss) = do
    p ← lift (read s.row.day s.row.batch_id)
    lift (verify_against_ledger p s)
    attempts ← deliver_segment hexdigest barrier s p.frames exporters now
    rest ← replay_all ss
    pure (prepend s p attempts rest)

  -- `replay_segments`, of a spool root and an installation id that are the database's.
  unfoldable pub replay_segments : Option Text → Job ReplayReport
  unfolding list_segment_records replay_all
  replay_segments delivery_status = do
    records ← list_segment_records delivery_status
    replay_all records
