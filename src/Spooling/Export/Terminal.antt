-- ===== src/Spooling/Export/Terminal.antt =====
-- The delivery state of one exporter: `delivered` is terminal, and is reached by a confirmation only.
use milhouse_oss.Prelude.{
  ℕ, ◌++◌, ◌≡◌, ◌≢◌, refl, inl, inr, Bool, Option-cases, true, false, ◌==◌, Option, none, some,
  List, [], ◌∷◌, arith, Text, text_eq_iff,
}
use milhouse_oss.Python.Datetime.{Datetime}
use milhouse_oss.State.Schema.{ExporterRow, Tables}
use milhouse_oss.State.Table.{find, find-IsKey, update, updated, find-update}
use milhouse_oss.Spooling.Job
use milhouse_oss.Spooling.Job.{SpoolCode, World, Job, Barrier}
use milhouse_oss.Python.Value.{instant}
use milhouse_oss.Spooling.Keeps.{
  ActionKeeps, Keeps, pure-ActionKeeps, if-ActionKeeps, execute-ActionKeeps, select-ActionKeeps,
  bind-ActionKeeps, transaction-ActionKeeps, pure-Keeps, lift-Keeps, require-Keeps, hold-Keeps,
  bind-Keeps, on_database-Keeps, if-Keeps, read_segment_record-Keeps,
}
use milhouse_oss.Spooling.Ledger.{
  read_segment_record, ExporterDelivery, SegmentRecord, delivered, failed, is_exporter,
}
use milhouse_oss.Spooling.Segment.{SpoolFrame}
use milhouse_oss.Spooling.Export.{
  Exporter, Cas, is_open, set_status, cas_missed, cas_rows, advance_status, attempt_delivery,
  record_outcome, try_exporter, try_delivery, try_deliveries, reload_record, require_now, matching,
  segment_is_expired, require_frames_belong, deliver_held, deliver_segment,
}

-- The delivery row of one segment and exporter.
unfoldable pub status_row : Text → Text → Tables → Option ExporterRow
status_row batch_id exporter_id t = find (is_exporter batch_id exporter_id) t.segment_exporters

abbrev pub IsDelivered : Text → Text → Tables → Type 0
IsDelivered batch_id exporter_id t =
    (r : ExporterRow) × (status_row batch_id exporter_id t ≡ some r)
    × (r.delivery_status ≡ delivered)

abbrev pub IsUndelivered : Text → Text → Tables → Type 0
IsUndelivered batch_id exporter_id t =
    (r : ExporterRow) → status_row batch_id exporter_id t ≡ some r → r.delivery_status ≢ delivered

abbrev with_status : Text → ExporterRow → ExporterRow
with_status status r = record r { delivery_status = status }

abbrev pub updates : Text → Text → Text → Tables → Tables
updates b e status t = record t {
  segment_exporters = update (is_open b e) (with_status status) t.segment_exporters;
}

status_row-updates :
    (b e b' e' status : Text) (t : Tables)
    → status_row b e (updates b' e' status t)
      ≡ updated (is_open b' e') (with_status status) (status_row b e t)
unfolding status_row
status_row-updates b e b' e' status t =
    find-update (is_exporter b e) (is_open b' e') (with_status status) t.segment_exporters
      (λ r. refl)

status_row-key :
    (b e : Text) (t : Tables) {r : ExporterRow}
    → status_row b e t ≡ some r
    → is_exporter b e r ≡ true
unfolding status_row
status_row-key b e t h = find-IsKey (is_exporter b e) t.segment_exporters h

IsDelivered-updates :
    (b e b' e' status : Text) (t : Tables)
    → IsDelivered b e t
    → IsDelivered b e (updates b' e' status t)
IsDelivered-updates b e b' e' status t (r, h, d) = (
  r,
  ground (arith, status_row-updates b e b' e' status t, text_eq_iff r.delivery_status delivered),
  d,
)

failed-ne-delivered : failed ≢ delivered
failed-ne-delivered h = absurd (cc h)

-- A failure never marks a row as delivered.
failed-updates :
    (b e b' e' : Text) (t : Tables)
    → IsUndelivered b e t
    → IsUndelivered b e (updates b' e' failed t)
failed-updates b e b' e' t open_row r h d = elim (Option-cases (status_row b e t)) [
  | inl absent ↦ ground (arith, status_row-updates b e b' e' failed t)
  | inr (x, k) ↦
      ground (arith, status_row-updates b e b' e' failed t, open_row x, failed-ne-delivered)
]

-- A write to another row leaves this one alone.
other-updates :
    (b e b' e' status : Text) (t : Tables)
    → e' ≢ e
    → IsUndelivered b e t
    → IsUndelivered b e (updates b' e' status t)
other-updates b e b' e' status t ne open_row r h d = elim (Option-cases (status_row b e t)) [
  | inl absent ↦ ground (arith, status_row-updates b e b' e' status t)
  | inr (x, k) ↦
      let key = status_row-key b e t k in
      ground (
        arith,
        status_row-updates b e b' e' status t,
        open_row x,
        text_eq_iff x.exporter_id e,
        text_eq_iff x.exporter_id e',
      )
]

module _ (P : Tables → Type 0) where
  set_status-ActionKeeps :
      (b e status : Text)
      → ((t : Tables) → P t → P (updates b e status t))
      → ActionKeeps P (set_status b e status)
  unfolding set_status
  set_status-ActionKeeps b e status keep = execute-ActionKeeps _ keep

  cas_missed-ActionKeeps : (b e : Text) (n : ℕ) → ActionKeeps P (cas_missed b e n)
  unfolding cas_missed
  cas_missed-ActionKeeps b e n =
      if-ActionKeeps (n == 1) _ _ (pure-ActionKeeps Cas.advanced)
        (bind-ActionKeeps _ _ (select-ActionKeeps _) (λ r. pure-ActionKeeps _))

  advance_status-Keeps :
      (b e status : Text)
      → ((t : Tables) → P t → P (updates b e status t))
      → Keeps P (advance_status b e status)
  unfolding advance_status cas_rows
  advance_status-Keeps b e status keep = on_database-Keeps _ _ (
      transaction-ActionKeeps _ (
        bind-ActionKeeps _ _ (set_status-ActionKeeps b e status keep)
          (λ n. cas_missed-ActionKeeps b e n)))

  -- What a delivery may write: `failed` anywhere, `delivered` for an exporter that has confirmed.
  module _ (frames : List SpoolFrame) (exporters : Text → Option Exporter)
      (on_failure : (b e : Text) (t : Tables) → P t → P (updates b e failed t))
      (on_confirmation : (b e : Text) (x : Exporter) (live : SegmentRecord)
        → exporters e ≡ some x
        → x.deliver live frames ≡ true
        → (t : Tables) → P t
        → P (updates b e delivered t)) where
    record_outcome-Keeps :
        (live : SegmentRecord) (e : Text) (x : Exporter) (c : Bool)
        → exporters e ≡ some x
        → x.deliver live frames ≡ c
        → Keeps P (record_outcome live e c)
    unfolding record_outcome
    record_outcome-Keeps live e x true h k =
        bind-Keeps _ _
          (advance_status-Keeps live.row.batch_id e delivered
            (on_confirmation live.row.batch_id e x live h k))
          (λ c. pure-Keeps _)
    record_outcome-Keeps live e x false h k =
        bind-Keeps _ _
          (advance_status-Keeps live.row.batch_id e failed (on_failure live.row.batch_id e))
          (λ c. pure-Keeps _)

    confirmed-Keeps :
        (live : SegmentRecord) (e : Text) (x : Exporter)
        → exporters e ≡ some x
        → Keeps P (Job.◌>>=◌ (attempt_delivery x e live frames) (record_outcome live e))
    unfolding attempt_delivery
    confirmed-Keeps live e x h = record {
      kept = λ w p.
          (record_outcome-Keeps live e x (x.deliver live frames) h refl).kept
            (record w { forwarded = w.forwarded ++ (e, live.row.batch_id) ∷ [] }) p;
    }

    try_exporter-Keeps :
        (live : SegmentRecord) (e : Text) (o : Option Exporter)
        → exporters e ≡ o
        → Keeps P (try_exporter live frames e o)
    unfolding try_exporter
    try_exporter-Keeps live e none h = pure-Keeps _
    try_exporter-Keeps live e (some x) h =
        if-Keeps _ _ _ (pure-Keeps _) (confirmed-Keeps live e x h)

    try_delivery-Keeps :
        (live : SegmentRecord) (d : ExporterDelivery)
        → Keeps P (try_delivery live frames exporters d)
    unfolding try_delivery
    try_delivery-Keeps live d =
        if-Keeps _ _ _ (pure-Keeps _)
          (try_exporter-Keeps live d.exporter_id (exporters d.exporter_id) refl)

    try_deliveries-Keeps :
        (live : SegmentRecord) (ds : List ExporterDelivery)
        → Keeps P (try_deliveries live frames exporters ds)
    unfolding try_deliveries
    try_deliveries-Keeps live [] = pure-Keeps _
    try_deliveries-Keeps live (d ∷ ds) =
        bind-Keeps _ _ (try_delivery-Keeps live d)
          (λ a. bind-Keeps _ _ (try_deliveries-Keeps live ds) (λ rest. pure-Keeps _))

    matched-Keeps : (given : SegmentRecord) → Keeps P (reload_record given)
    unfolding reload_record
    matched-Keeps given =
        bind-Keeps (read_segment_record given.row.batch_id) (λ r. Job.lift (matching given r))
          (read_segment_record-Keeps given.row.batch_id) (λ r. lift-Keeps (matching given r))

    deliver_held-Keeps :
        (hexdigest : Text → Text) (given : SegmentRecord) (now : Datetime)
        → Keeps P (deliver_held hexdigest given frames exporters now)
    unfolding deliver_held
    deliver_held-Keeps hexdigest given now =
        bind-Keeps (reload_record given) _ (matched-Keeps given) (λ live.
          bind-Keeps (Job.lift (require_frames_belong hexdigest live frames)) _
            (lift-Keeps (require_frames_belong hexdigest live frames))
            (λ u.
              if-Keeps (segment_is_expired frames now) _ _ (pure-Keeps _)
                (try_deliveries-Keeps live live.exporters)))

    pub deliver_segment-Keeps :
        (hexdigest : Text → Text) (barrier : Barrier) (given : SegmentRecord) (now : Datetime)
        → Keeps P (deliver_segment hexdigest barrier given frames exporters now)
    unfolding deliver_segment
    deliver_segment-Keeps hexdigest barrier given now =
        bind-Keeps (Job.lift (require_now (instant now))) _ (lift-Keeps (require_now (instant now)))
          (λ u.
            bind-Keeps (Job.require barrier.bound SpoolCode.export) _
              (require-Keeps barrier.bound SpoolCode.export)
              (λ v.
                bind-Keeps (Job.hold barrier) _ (hold-Keeps barrier)
                  (λ w. deliver_held-Keeps hexdigest given now)))

-- `delivered` is terminal: whatever a call of `deliver_segment` does and however it ends, a row that
-- was `delivered` before is there and `delivered` after.
pub IsDelivered-stays :
    (hexdigest : Text → Text) (barrier : Barrier) (given : SegmentRecord) (frames : List SpoolFrame)
    (exporters : Text → Option Exporter) (now : Datetime) (batch_id exporter_id : Text) (w : World)
    → IsDelivered batch_id exporter_id w.database.tables
    → IsDelivered batch_id exporter_id
        (deliver_segment hexdigest barrier given frames exporters now w).1.database.tables
IsDelivered-stays hexdigest barrier given frames exporters now b e w h =
    (deliver_segment-Keeps (IsDelivered b e) frames exporters
        (λ b' e' t d. IsDelivered-updates b e b' e' failed t d)
        (λ b' e' x live k c t d. IsDelivered-updates b e b' e' delivered t d) hexdigest barrier
        given now).kept
      w h

-- No delivery is recorded that was not confirmed: if the exporter registered under `exporter_id`, if
-- any, never returns normally from `deliver` for these frames, then a row of it that was not
-- `delivered` is not `delivered` after a call of `deliver_segment`, whatever the other exporters do.
pub unconfirmed_stays_open :
    (hexdigest : Text → Text) (barrier : Barrier) (given : SegmentRecord) (frames : List SpoolFrame)
    (exporters : Text → Option Exporter) (now : Datetime) (batch_id exporter_id : Text) (w : World)
    → ((x : Exporter) (live : SegmentRecord)
        → exporters exporter_id ≡ some x
        → x.deliver live frames ≢ true)
    → IsUndelivered batch_id exporter_id w.database.tables
    → IsUndelivered batch_id exporter_id
        (deliver_segment hexdigest barrier given frames exporters now w).1.database.tables
unconfirmed_stays_open hexdigest barrier given frames exporters now b e w never h =
    (deliver_segment-Keeps (IsUndelivered b e) frames exporters
        (λ b' e' t d. failed-updates b e b' e' t d)
        (λ b' e' x live k c t d.
          other-updates b e b' e' delivered t (λ same. never x live (rw (← same) k) c) d)
        hexdigest barrier given now).kept
      w h
