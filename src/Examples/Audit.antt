-- ===== src/Examples/Audit.antt =====
-- state/audit.py at one prune of a segment that was never delivered.
use milhouse_oss.Prelude.{
  ◌≡◌, ◌<◌, arith, refl, true, some, none, [], ◌∷◌, ◌++◌, Text, codes, pos, length,
}
use milhouse_oss.Python.Value.{str, bool, int}
use milhouse_oss.Python.Datetime.{as_utc}
use milhouse_oss.Python.Outcome.{ok}
use milhouse_oss.Core.Clock.{format_timestamp, stamp, fixed_digits}
use milhouse_oss.State.Errors.{StateCode}
use milhouse_oss.State.Schema.{Tables, empty_tables}
use milhouse_oss.State.Database.{healthy, fresh}
use milhouse_oss.State.Audit.{
  is_fingerprint_token, record_retention_prune, list_audit, select_action, append_audit, prune_row,
}
use milhouse_oss.State.Audit.Append.{
  Recorded, Appended, record_retention_prune-Appended, list_audit-recorded, prune_action, row_of,
}
use milhouse_oss.Examples.Data.{at, number}

abbrev token : Text
token = codes "mh_fp1_e1_batch_abcdefghijklmnopqrstuvwxyz234567abcdefghijklmnopqrst"

pruned :
    (record_retention_prune
      (at 12 0)
      (str (codes "batch-1"))
      (number 12)
      (number 400)
      (bool true)
      (some (λ kind batch. token))
      fresh).0
    ≡ ok tt
unfolding record_retention_prune is_fingerprint_token format_timestamp as_utc stamp fixed_digits
pruned = refl

record_retention_prune-Appended_example :
    Appended empty_tables
      (record_retention_prune
        (at 12 0)
        (str (codes "batch-1"))
        (number 12)
        (number 400)
        (bool true)
        (some (λ kind batch. token))
        fresh).1.tables
      (at 12 0)
      (str (codes "batch-1"))
      (number 12)
      (number 400)
      (bool true)
      (some (λ kind batch. token))
record_retention_prune-Appended_example =
    record_retention_prune-Appended (at 12 0) (str (codes "batch-1")) (number 12) (number 400)
      (bool true) (some (λ kind batch. token)) fresh pruned

abbrev after_prune : Tables
after_prune =
    append_audit (prune_row true none 12 400 (codes "2024-02-29T12:00:09.007Z")) empty_tables

noon_stamped : format_timestamp {C = StateCode} (at 12 0) ≡ ok (codes "2024-02-29T12:00:09.007Z")
unfolding format_timestamp as_utc stamp fixed_digits
noon_stamped = refl

abbrev recorded : Recorded empty_tables after_prune (at 12 0)
recorded = record {
  stamp = codes "2024-02-29T12:00:09.007Z";
  undelivered = true;
  resource = none;
  records = 12;
  bytes = 400;
  stamped = noon_stamped;
  safe = tt;
  records_bound = omega arith;
  bytes_bound = omega arith;
  appended = refl;
}

none_before : length (select_action (some prune_action) empty_tables.audit) < 10
unfolding select_action
none_before = omega arith

list_audit-recorded_example :
    (list_audit (str prune_action) (int (pos 10)) (healthy after_prune)).0
    ≡ ok (select_action (some prune_action) empty_tables.audit ++ row_of recorded ∷ [])
list_audit-recorded_example =
    list_audit-recorded empty_tables after_prune (at 12 0) 10 recorded (omega arith) (omega arith)
      none_before
