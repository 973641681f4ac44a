-- ===== src/Examples/Spooling/Data.antt =====
-- One segment, its row, its file and its exporter.
use milhouse_oss.Prelude.{true, false, Option, none, some, [], ◌∷◌, ◌++◌, Text, codes}
use milhouse_oss.Python.Outcome.{Outcome, ok}
use milhouse_oss.State.Schema.{SegmentRow, Tables, empty_tables}
use milhouse_oss.State.Database.{healthy}
use milhouse_oss.Outbox.Lines.{Bytes}
use milhouse_oss.Spooling.Job.{SpoolCode, World, Barrier}
use milhouse_oss.Spooling.Segment.{SpoolFrame, SegmentHeader}
use milhouse_oss.Spooling.Reader.{ParsedSegment, HeaderObject, FrameObject}
use milhouse_oss.Spooling.Ledger.{SegmentRecord}
use milhouse_oss.Spooling.Export.{Exporter}
use milhouse_oss.Examples.Data.{datetime_at, noon}

abbrev pub batch : Text
batch = codes "b1"

abbrev pub sink : Text
sink = codes "ndjson"

abbrev pub hash : Text
hash = codes "0123456789abcdef0123456789abcdef0123456789abcdef0123456789abcdef"

abbrev pub header : SegmentHeader
header = record {
  batch_id = batch;
  config_generation = hash;
  scope = codes "installation";
  target_id = none;
  privacy_class = codes "internal";
  retention_days = 30;
  required_exporters = sink ∷ [];
  record_count = 1;
  content_sha256 = hash;
}

-- It expires at noon.
abbrev pub frame : SpoolFrame
frame = record {
  batch_id = batch;
  sequence = 1;
  record_id = codes "r1";
  scope = codes "installation";
  target_id = none;
  privacy_class = codes "internal";
  expires_at = datetime_at 12 0;
  line = codes "F" ++ 10 ∷ [];
}

abbrev pub content : Bytes
content = codes "H" ++ 10 ∷ codes "F" ++ 10 ∷ []

abbrev pub parsed : ParsedSegment
parsed = record { header = header; frames = frame ∷ []; byte_size = 4; file_sha256 = hash }

abbrev pub load_header : Bytes → Outcome SpoolCode HeaderObject
load_header line = ok (record { schema = 1; frame_version = 1; header = header })

abbrev pub load_frame : Bytes → Outcome SpoolCode FrameObject
load_frame line = ok (record { frame_version = 1; record_id = codes "r1"; frame = some frame })

abbrev pub header_line : SegmentHeader → Bytes
header_line h = codes "H" ++ 10 ∷ []

abbrev pub digest : Text → Text
digest s = hash

abbrev pub row : SegmentRow
row = record {
  batch_id = batch;
  day = codes "2024-02-29";
  schema_version = 1;
  frame_version = 1;
  config_generation = hash;
  scope = codes "installation";
  target_id = none;
  privacy_class = codes "internal";
  retention_days = 30;
  record_count = 1;
  content_sha256 = hash;
  byte_size = 4;
  file_sha256 = hash;
  committed_at = noon;
  origin = codes "committed";
}

abbrev pub segment : Text → SegmentRecord
segment status = record {
  row = row;
  exporters = (record { exporter_id = sink; delivery_status = status }) ∷ [];
}

abbrev pub ledger : Text → Tables
ledger status = record empty_tables {
  segments = row ∷ [];
  segment_exporters =
      (record { batch_id = batch; exporter_id = sink; delivery_status = status }) ∷ [];
}

abbrev pub world : Text → World
world status = record { database = healthy (ledger status); forwarded = []; unlinked = [] }

abbrev pub open_barrier : Barrier
open_barrier = record { bound = true; entry = ok tt }

-- An exporter whose `deliver` always raises.
abbrev pub refusing : Exporter
refusing = record { exporter_id = some sink; deliver = λ s fs. false }

abbrev pub refusers : Text → Option Exporter
refusers e = some refusing

abbrev pub read : Text → Text → Outcome SpoolCode ParsedSegment
read day b = ok parsed
