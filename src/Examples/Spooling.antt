-- ===== src/Examples/Spooling.antt =====
-- The spool at one segment of one frame, due to one exporter: spooling/*.py.
mod Data
use milhouse_oss.Prelude.{
  ℕ, ◌≡◌, ◌≢◌, ◌≤◌, ◌++◌, refl, ◌∙◌, ap, sym, Bool, true, false, Option, none, some, List, [], ◌∷◌,
  arith, All, all, any, length, Text, codes, text_eq,
}
use milhouse_oss.Python.Outcome.{ok}
use milhouse_oss.Python.Datetime.{as_utc, instant_le, absolute_microseconds}
use milhouse_oss.Outbox.Lines.{complete_end, iter_complete_lines}
use milhouse_oss.State.Table.{find, row_count, update}
use milhouse_oss.Core.Clock.{format_timestamp}
use milhouse_oss.State.Schema.{ExporterRow}
use milhouse_oss.Spooling.Job.{World}
use milhouse_oss.Spooling.Segment.{SpoolFrame, validate_header, validate_frame}
use milhouse_oss.Spooling.Writer.{build_segment_bytes}
use milhouse_oss.Spooling.Reader.{ParsedSegment, parse_segment_bytes}
use milhouse_oss.Spooling.Reader.RoundTrip.{IsHeader, IsFrame, parse-build}
use milhouse_oss.Spooling.Reader.Canonical.{parse-bounds, build-parse}
use milhouse_oss.Spooling.Ledger.{SegmentRecord, delivered, list_segment_records}
use milhouse_oss.Spooling.Export.{Exporter, delivery_failed, deliver_segment}
use milhouse_oss.Spooling.Export.Terminal.{
  IsDelivered, IsUndelivered, status_row, IsDelivered-stays, unconfirmed_stays_open,
}
use milhouse_oss.Spooling.Export.Expiry.{is_past, Untouched, expired_is_withheld}
use milhouse_oss.Spooling.Retention.{
  SegmentRetention, PrunedSegment, live, removed, orphaned, retained, pruned_segment, classify,
  prune_segment, retention_apply,
}
use milhouse_oss.Spooling.Retention.Preview.{Follows, apply_one-classify}
use milhouse_oss.Spooling.Retention.Unexpired.{Spared, unexpired_survives}
use milhouse_oss.Spooling.Retention.Effect.{Effect, prune_segment-Effect}
use milhouse_oss.Spooling.Verify.{SegmentVerification, verification, verify_spool}
use milhouse_oss.Spooling.Verify.Sound.{Audits, verify_spool-Audits}
use milhouse_oss.Spooling.Replay.{ReplayReport, replay_segments}
use milhouse_oss.Spooling.Replay.Repeat.{replay_again}
use milhouse_oss.Examples.Data.{datetime_at}
use milhouse_oss.Examples.Spooling.Data.{
  batch, sink, hash, header, frame, content, parsed, load_header, load_frame, header_line, digest,
  row, segment, world, open_barrier, refusing, refusers, read,
}

delivered_before : IsDelivered batch sink (world delivered).database.tables
unfolding status_row find text_eq
delivered_before =
    ((record { batch_id = batch; exporter_id = sink; delivery_status = delivered }), refl, refl)

IsDelivered-stays_example :
    IsDelivered batch sink
      (deliver_segment digest open_barrier
        (segment delivered)
        (frame ∷ [])
        refusers
        (datetime_at 11 0)
        (world delivered)).1.database.tables
IsDelivered-stays_example =
    IsDelivered-stays digest open_barrier (segment delivered) (frame ∷ []) refusers
      (datetime_at 11 0) batch sink (world delivered) delivered_before

pending_row :
    status_row batch sink (world (codes "pending")).database.tables
    ≡ some (record { batch_id = batch; exporter_id = sink; delivery_status = codes "pending" })
unfolding status_row find text_eq
pending_row = refl

pending_before : IsUndelivered batch sink (world (codes "pending")).database.tables
pending_before r h d = absurd (cc (sym pending_row ∙ h, d))

never_confirmed :
    (x : Exporter) (s : SegmentRecord) → refusers sink ≡ some x → x.deliver s (frame ∷ []) ≢ true
never_confirmed x s h k =
    let e : refusing ≡ x = cc h in
    let e' : false ≡ true = ap (λ y. y.deliver s (frame ∷ [])) e ∙ k in absurd (cc e')

unconfirmed_stays_open_example :
    IsUndelivered batch sink
      (deliver_segment digest open_barrier
        (segment (codes "pending"))
        (frame ∷ [])
        refusers
        (datetime_at 11 0)
        (world (codes "pending"))).1.database.tables
unconfirmed_stays_open_example =
    unconfirmed_stays_open digest open_barrier (segment (codes "pending")) (frame ∷ []) refusers
      (datetime_at 11 0) batch sink (world (codes "pending")) never_confirmed pending_before

expired : any (is_past (datetime_at 13 0)) (frame ∷ []) ≡ true
unfolding instant_le absolute_microseconds
expired = refl

expired_is_withheld_example :
    Untouched
      (world (codes "pending"))
      (deliver_segment digest open_barrier
        (segment (codes "pending"))
        (frame ∷ [])
        refusers
        (datetime_at 13 0)
        (world (codes "pending"))).1
expired_is_withheld_example =
    expired_is_withheld digest open_barrier (segment (codes "pending")) (frame ∷ []) refusers
      (datetime_at 13 0) (world (codes "pending")) expired

built : build_segment_bytes header_line digest header (frame ∷ []) ≡ ok content
unfolding build_segment_bytes text_eq
built = refl

header-IsHeader : IsHeader load_header load_frame header_line digest header
unfolding validate_header text_eq
header-IsHeader = (refl, ((λ h. cc h, refl), λ h. cc h), omega arith, refl)

frame-IsFrame : IsFrame load_header load_frame header_line digest frame
unfolding validate_frame
frame-IsFrame = (refl, ((λ h. cc h, refl), λ h. cc h), omega arith, refl)

parse-build_example :
    parse_segment_bytes load_header load_frame header_line digest content
    ≡ ok (record { header = header; frames = frame ∷ []; byte_size = 4; file_sha256 = hash })
parse-build_example =
    parse-build load_header load_frame header_line digest header (frame ∷ []) {content = content}
      header-IsHeader (frame-IsFrame, tt) built

accepted : parse_segment_bytes load_header load_frame header_line digest content ≡ ok parsed
unfolding parse_segment_bytes complete_end iter_complete_lines text_eq
accepted = refl

parse-bounds_example :
    (parsed.byte_size ≡ length content)
    × (parsed.byte_size ≤ 67108864)
    × (length parsed.frames ≤ 1000000)
    × (parsed.header.record_count ≡ length parsed.frames)
parse-bounds_example =
    parse-bounds load_header load_frame header_line digest content parsed accepted

build-parse_example :
    build_segment_bytes header_line digest parsed.header parsed.frames ≡ ok content
build-parse_example = build-parse load_header load_frame header_line digest content parsed accepted

classified_live :
    classify read (λ day b. removed) (segment delivered) (datetime_at 11 0)
    ≡ ok (retained (segment delivered) live none)
unfolding classify text_eq instant_le absolute_microseconds
classified_live = refl

apply_one-classify_example :
    Follows read
      (λ day b. removed)
      (segment delivered)
      (datetime_at 11 0)
      (retained (segment delivered) live none)
      (world delivered)
apply_one-classify_example =
    apply_one-classify read (λ day b. removed) (segment delivered) (datetime_at 11 0)
      (retained (segment delivered) live none) (world delivered) classified_live

unexpired :
    (day : Text) (p : ParsedSegment)
    → read day batch ≡ ok p
    → all (is_past (datetime_at 11 0)) p.frames ≡ false
unfolding instant_le absolute_microseconds
unexpired day p h = let e : parsed ≡ p = cc h in rw (← e) refl

Spared-before : Spared batch row (world delivered)
unfolding find text_eq
Spared-before = (refl, refl)

unexpired_survives_example :
    Spared batch row
      (retention_apply read
        (λ day b. removed)
        open_barrier
        (datetime_at 11 0)
        true
        (world delivered)).1
unexpired_survives_example =
    unexpired_survives read (λ day b. removed) open_barrier (datetime_at 11 0) true batch row
      (world delivered) unexpired Spared-before

pruned :
    (prune_segment read
      (λ day b. orphaned)
      (segment delivered)
      (datetime_at 13 0)
      (world delivered)).0
    ≡ ok (some (pruned_segment (segment delivered) orphaned))
unfolding prune_segment format_timestamp as_utc find
pruned = refl

prune_segment-Effect_example :
    Effect
      (segment delivered)
      (some (pruned_segment (segment delivered) orphaned))
      (world delivered)
      (prune_segment read
        (λ day b. orphaned)
        (segment delivered)
        (datetime_at 13 0)
        (world delivered)).1
prune_segment-Effect_example =
    prune_segment-Effect read (λ day b. orphaned) (segment delivered) (datetime_at 13 0)
      (world delivered) (some (pruned_segment (segment delivered) orphaned)) pruned

verified : (verify_spool read (world delivered)).0 ≡ ok (verification (segment delivered) none ∷ [])
unfolding verify_spool text_eq
verified = refl

verify_spool-Audits_example :
    (ss : List SegmentRecord) × ((list_segment_records none (world delivered)).0 ≡ ok ss)
    × Audits read ss (verification (segment delivered) none ∷ [])
    × ((verify_spool read (world delivered)).1.database.tables ≡ (world delivered).database.tables)
verify_spool-Audits_example =
    verify_spool-Audits read (world delivered) (verification (segment delivered) none ∷ []) verified

abbrev first_report : ReplayReport
first_report = record {
  segments = batch ∷ [];
  record_ids = codes "r1" ∷ [];
  delivery_attempts =
      (record { batch_id = batch; exporter_id = sink; outcome = delivery_failed }) ∷ [];
}

replayed :
    (replay_segments digest read open_barrier refusers
      (datetime_at 11 0)
      none
      (world (codes "pending"))).0
    ≡ ok first_report
unfolding replay_segments text_eq format_timestamp as_utc find instant_le absolute_microseconds
    row_count
replayed = refl

replayed_again :
    (replay_segments digest read open_barrier refusers
      (datetime_at 11 0)
      none
      (replay_segments digest read open_barrier refusers
        (datetime_at 11 0)
        none
        (world (codes "pending"))).1).0
    ≡ ok first_report
unfolding replay_segments text_eq format_timestamp as_utc find instant_le absolute_microseconds
    row_count update
replayed_again = refl

replay_again_example :
    (first_report.segments ≡ first_report.segments)
    × (first_report.record_ids ≡ first_report.record_ids)
replay_again_example =
    replay_again digest read open_barrier open_barrier refusers refusers (datetime_at 11 0)
      (datetime_at 11 0) (world (codes "pending")) first_report first_report replayed replayed_again
