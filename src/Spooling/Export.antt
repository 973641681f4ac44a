-- ===== src/Spooling/Export.antt =====
-- src/milhouse/spooling/exporter.py: delivery of a segment to its exporters, and its record.
pub mod Terminal
pub mod Expiry
use milhouse_oss.Prelude.{
  ℕ, Bool, true, false, not, ◌&&◌, ◌||◌, Option, none, some, List, [], ◌∷◌, ◌++◌, leb, ◌==◌,
  if◌then◌else◌, length, any, map, Text, codes, text_eq,
}
use milhouse_oss.Python.Datetime.{Datetime, instant_le}
use milhouse_oss.Python.Patterns.{is_name}
use milhouse_oss.Python.Value.{Value, instant}
use milhouse_oss.Python.Outcome
use milhouse_oss.Python.Outcome.{Outcome, ok, raised, fault, normalize}
use milhouse_oss.Core.Clock.{format_timestamp}
use milhouse_oss.State.Schema.{ExporterRow, Tables}
use milhouse_oss.State.Table.{find, update, row_count}
use milhouse_oss.State.Database
use milhouse_oss.State.Database.{Action, execute, select, transaction}
use milhouse_oss.Spooling.Job.{
  SpoolCode, export, Job, World, pure, lift, ◌>>=◌, ◌>>◌, require, on_database, Barrier, hold,
}
use milhouse_oss.Spooling.Segment.{SpoolFrame, joined}
use milhouse_oss.Spooling.Ledger.{
  ExporterDelivery, SegmentRecord, delivered, failed, is_exporter, read_segment_record,
}

-- An exporter object: what it says its id is, if the property does not raise, and whether `deliver`
-- returns normally.
pub record Exporter : Type 0 where
  pub exporter_id : Option Text
  pub deliver : SegmentRecord → List SpoolFrame → Bool

pub data Attempt : Type 0 where
  delivered_now delivery_failed already_delivered no_exporter expired segment_gone : Attempt

pub record ExporterAttempt : Type 0 where
  pub batch_id : Text
  pub exporter_id : Text
  pub outcome : Attempt

pub data Cas : Type 0 where
  advanced already gone : Cas

unfoldable pub require_now : Value → Outcome SpoolCode (Unit {0})
require_now now = normalize export (Outcome.◌>>◌ (format_timestamp now) (ok tt))

unfoldable pub agrees_with : SegmentRecord → SegmentRecord → Bool
agrees_with live record_given =
    text_eq live.row.content_sha256 record_given.row.content_sha256
    && text_eq live.row.file_sha256 record_given.row.file_sha256
    && (live.row.record_count == record_given.row.record_count)
    && (live.row.byte_size == record_given.row.byte_size)

abbrev pub matching : SegmentRecord → Option SegmentRecord → Outcome SpoolCode SegmentRecord
matching given none = raised (fault export)
matching given (some live) = if agrees_with live given then ok live else raised (fault export)

-- `_reload_record`
unfoldable pub reload_record : SegmentRecord → Job SegmentRecord
unfolding read_segment_record agrees_with
reload_record given = do live ← read_segment_record given.row.batch_id; lift (matching given live)

abbrev pub is_foreign : Text → SpoolFrame → Bool
is_foreign batch_id f = not (text_eq f.batch_id batch_id)

-- `min(frame.record.expires_at for frame in frames)`
unfoldable pub earliest : Datetime → List SpoolFrame → Datetime
earliest t [] = t
earliest t (f ∷ fs) = earliest (if instant_le t f.expires_at then t else f.expires_at) fs

unfoldable pub segment_is_expired : List SpoolFrame → Datetime → Bool
unfolding earliest
segment_is_expired [] now = false
segment_is_expired (f ∷ fs) now = instant_le (earliest f.expires_at fs) now

-- `UPDATE ... SET delivery_status WHERE ... AND delivery_status != 'delivered'`, and its row count.
abbrev pub is_open : Text → Text → ExporterRow → Bool
is_open batch_id exporter_id r =
    is_exporter batch_id exporter_id r && not (text_eq r.delivery_status delivered)

unfoldable pub set_status : Text → Text → Text → Action ℕ
unfolding execute
set_status batch_id exporter_id status = execute λ t. (
  row_count (is_open batch_id exporter_id) t.segment_exporters,
  record t {
    segment_exporters =
        update (is_open batch_id exporter_id) (λ r. record r { delivery_status = status })
          t.segment_exporters;
  },
)

abbrev pub missed : Option ExporterRow → Cas
missed none = gone
missed (some r) = already

unfoldable pub cas_missed : Text → Text → ℕ → Action Cas
unfolding execute
cas_missed batch_id exporter_id changed =
    if changed == 1
    then Database.pure advanced
    else Database.◌>>=◌ (select (λ t. find (is_exporter batch_id exporter_id) t.segment_exporters))
        λ r. Database.pure (missed r)

unfoldable pub cas_rows : Text → Text → Text → Action Cas
unfolding set_status cas_missed
cas_rows batch_id exporter_id status =
    Database.◌>>=◌ (set_status batch_id exporter_id status) (cas_missed batch_id exporter_id)

-- `_advance_status_locked`
unfoldable pub advance_status : Text → Text → Text → Job Cas
unfolding transaction cas_rows
advance_status batch_id exporter_id status =
    on_database export (transaction (cas_rows batch_id exporter_id status))

unfoldable pub self_identifies : Exporter → Text → Bool
self_identifies e exporter_id = elim e.exporter_id [
  | none ↦ false
  | some claimed ↦ text_eq claimed exporter_id
]

-- `exporter.deliver(record, frames)`: the call is made whether or not it returns.
unfoldable pub attempt_delivery : Exporter → Text → SegmentRecord → List SpoolFrame → Job Bool
attempt_delivery e exporter_id live frames w = (
  ok (e.deliver live frames),
  record w { forwarded = w.forwarded ++ (exporter_id, live.row.batch_id) ∷ [] },
)

abbrev pub delivered_outcome : Cas → Attempt
delivered_outcome advanced = delivered_now
delivered_outcome already = already_delivered
delivered_outcome gone = segment_gone

abbrev pub attempt_of : SegmentRecord → Text → Attempt → ExporterAttempt
attempt_of live exporter_id outcome = record {
  batch_id = live.row.batch_id;
  exporter_id = exporter_id;
  outcome = outcome;
}

unfoldable pub record_outcome : SegmentRecord → Text → Bool → Job Attempt
unfolding advance_status
record_outcome live exporter_id true = do
  c ← advance_status live.row.batch_id exporter_id delivered
  pure (delivered_outcome c)
record_outcome live exporter_id false = do
  c ← advance_status live.row.batch_id exporter_id failed
  pure delivery_failed

unfoldable pub try_exporter : SegmentRecord → List SpoolFrame → Text → Option Exporter → Job Attempt
unfolding attempt_delivery record_outcome self_identifies is_name
try_exporter live frames exporter_id none = pure no_exporter
try_exporter live frames exporter_id (some e) =
    if not (is_name 63 exporter_id) || not (self_identifies e exporter_id)
    then pure no_exporter
    else (do
      confirmed ← attempt_delivery e exporter_id live frames
      record_outcome live exporter_id confirmed)

-- One turn of the loop over the exporters of the segment.
unfoldable pub try_delivery :
    SegmentRecord → List SpoolFrame → (Text → Option Exporter) → ExporterDelivery → Job Attempt
unfolding try_exporter
try_delivery live frames exporters d =
    if text_eq d.delivery_status delivered
    then pure already_delivered
    else try_exporter live frames d.exporter_id (exporters d.exporter_id)

unfoldable pub try_deliveries :
    SegmentRecord
    → List SpoolFrame
    → (Text → Option Exporter)
    → List ExporterDelivery
    → Job (List ExporterAttempt)
unfolding try_delivery
try_deliveries live frames exporters [] = pure []
try_deliveries live frames exporters (d ∷ ds) = do
  a ← try_delivery live frames exporters d
  rest ← try_deliveries live frames exporters ds
  pure (attempt_of live d.exporter_id a ∷ rest)

abbrev pub withheld : SegmentRecord → ExporterDelivery → ExporterAttempt
withheld live d =
    attempt_of live d.exporter_id
      (if text_eq d.delivery_status delivered then already_delivered else expired)

-- `hexdigest` is the digest of `spool_content_sha256`.
module _ (hexdigest : Text → Text) where
  unfoldable pub require_frames_belong :
      SegmentRecord → List SpoolFrame → Outcome SpoolCode (Unit {0})
  unfolding joined
  require_frames_belong live frames =
      if not (length frames == live.row.record_count)
        || any (is_foreign live.row.batch_id) frames
        || not (text_eq (hexdigest (joined frames)) live.row.content_sha256)
      then raised (fault export)
      else ok tt

  -- Under the shared hold. `exporters` is the mapping, `now` the instant that was tested.
  unfoldable pub deliver_held :
      SegmentRecord
      → List SpoolFrame
      → (Text → Option Exporter)
      → Datetime
      → Job (List ExporterAttempt)
  unfolding reload_record require_frames_belong segment_is_expired try_deliveries
  deliver_held given frames exporters now = do
    live ← reload_record given
    lift (require_frames_belong live frames)
    if segment_is_expired frames now
        then pure (map (withheld live) live.exporters)
        else try_deliveries live frames exporters live.exporters

  unfoldable pub deliver_segment :
      Barrier
      → SegmentRecord
      → List SpoolFrame
      → (Text → Option Exporter)
      → Datetime
      → Job (List ExporterAttempt)
  unfolding require_now hold deliver_held
  deliver_segment barrier given frames exporters now = do
    lift (require_now (instant now))
    require barrier.bound export
    hold barrier
    deliver_held given frames exporters now
