-- ===== src/Examples/Cursors.antt =====
-- state/cursors.py at a source that two collectors advance from revision 0.
use milhouse_oss.Prelude.{◌≡◌, ◌≢◌, ◌≤◌, refl, false, some, none, [], ◌∷◌, Text, text_eq, codes}
use milhouse_oss.Python.Value.{str}
use milhouse_oss.Python.Outcome.{ok}
use milhouse_oss.Python.Datetime.{as_utc}
use milhouse_oss.Core.Clock.{format_timestamp, stamp, fixed_digits}
use milhouse_oss.State.Schema.{SourceCursor, SegmentRow, empty_tables}
use milhouse_oss.State.Database.{healthy, ControlDatabase, next_fault}
use milhouse_oss.State.Table.{find, upsert}
use milhouse_oss.State.Cursors.{
  advance_cursor, read_cursor, is_committed, stored_cursor, put_cursor,
}
use milhouse_oss.State.Cursors.Cas.{
  Call, run_all, revision_of, revision_never_falls, lost_update_refused, read-advance_cursor,
}
use milhouse_oss.Examples.Data.{at, number}

abbrev nginx : Text
nginx = codes "nginx"

abbrev batch : Text
batch = codes "batch-1"

abbrev committed : SegmentRow
committed = record {
  batch_id = batch;
  day = codes "2024-02-29";
  schema_version = 1;
  frame_version = 1;
  config_generation = codes "g1";
  scope = codes "site";
  target_id = none;
  privacy_class = codes "internal";
  retention_days = 30;
  record_count = 12;
  content_sha256 = codes "00";
  byte_size = 400;
  file_sha256 = codes "11";
  committed_at = codes "2024-02-29T11:00:09.007Z";
  origin = codes "spool";
}

abbrev first_cursor : SourceCursor
first_cursor = record {
  source = nginx;
  position = codes "offset 10";
  batch_id = some batch;
  revision = 1;
  updated_at = codes "2024-02-29T12:00:09.007Z";
}

abbrev start : ControlDatabase
start = healthy (record empty_tables { segments = committed ∷ [] })

abbrev second_call : Call
second_call = record {
  source = str nginx;
  position = str (codes "offset 20");
  batch = str batch;
  now = at 12 1;
  expected = number 1;
}

first_advance :
    (advance_cursor (str nginx) (str (codes "offset 10")) (str batch) (at 12 0) (number 0) start).0
    ≡ ok first_cursor
unfolding advance_cursor is_committed stored_cursor put_cursor find upsert text_eq format_timestamp
    as_utc stamp fixed_digits
first_advance = refl

lost_update_refused_example :
    (advance_cursor (str nginx) (str (codes "offset 15")) (str batch) (at 12 2) (number 0) (
      run_all
        (second_call ∷ [])
        (advance_cursor
          (str nginx)
          (str (codes "offset 10"))
          (str batch)
          (at 12 0)
          (number 0)
          start).1)).0
    ≢ ok first_cursor
lost_update_refused_example =
    lost_update_refused (str nginx) (str (codes "offset 10")) (str batch) (at 12 0) (number 0) start
      (second_call ∷ []) (str (codes "offset 15")) (str batch) (at 12 2) first_advance

revision_never_falls_example :
    revision_of nginx start ≤ revision_of nginx (run_all (second_call ∷ []) start)
revision_never_falls_example = revision_never_falls nginx (second_call ∷ []) start

stays_open :
    (advance_cursor
      (str nginx)
      (str (codes "offset 10"))
      (str batch)
      (at 12 0)
      (number 0)
      start).1.closed
    ≡ false
unfolding advance_cursor is_committed stored_cursor put_cursor find upsert text_eq format_timestamp
    as_utc stamp fixed_digits
stays_open = refl

answers :
    next_fault
      (advance_cursor
        (str nginx)
        (str (codes "offset 10"))
        (str batch)
        (at 12 0)
        (number 0)
        start).1.faults
    ≡ false
unfolding advance_cursor is_committed stored_cursor put_cursor find upsert text_eq format_timestamp
    as_utc stamp fixed_digits next_fault
answers = refl

read-advance_cursor_example :
    (read_cursor
      (str nginx)
      (advance_cursor
        (str nginx)
        (str (codes "offset 10"))
        (str batch)
        (at 12 0)
        (number 0)
        start).1).0
    ≡ ok (some first_cursor)
read-advance_cursor_example =
    read-advance_cursor (str nginx) (str (codes "offset 10")) (str batch) (at 12 0) (number 0) start
      first_advance stays_open answers
