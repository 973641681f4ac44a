-- ===== src/Spooling/Export/Expiry.antt =====
-- Delivery after the expiry of a record: the whole segment is withheld.
use milhouse_oss.Prelude.{◌≡◌, ◌∙◌, refl, Bool, true, ◌||◌, Option, List, [], ◌∷◌, arith, Text, any}
use milhouse_oss.Python.Datetime.{Datetime, instant_le}
use milhouse_oss.Python.Outcome.{Outcome, ok, raised}
use milhouse_oss.Python.Value.{instant}
use milhouse_oss.Spooling.Job
use milhouse_oss.Spooling.Job.{SpoolCode, World, Job, Barrier}
use milhouse_oss.Spooling.Keeps.{read_segment_record-Keeps}
use milhouse_oss.Spooling.Ledger.{SegmentRecord, read_segment_record}
use milhouse_oss.Spooling.Segment.{SpoolFrame}
use milhouse_oss.Spooling.Export.{
  Exporter, earliest, segment_is_expired, reload_record, matching, require_now,
  require_frames_belong, deliver_held, deliver_segment,
}

abbrev pub is_past : Datetime → SpoolFrame → Bool
is_past now f = instant_le f.expires_at now

earliest-is_past :
    (now t : Datetime) (fs : List SpoolFrame)
    → instant_le (earliest t fs) now ≡ (instant_le t now || any (is_past now) fs)
unfolding earliest instant_le
earliest-is_past now t [] = ground arith
earliest-is_past now t (f ∷ fs) =
    ground (arith, earliest-is_past now t fs, earliest-is_past now f.expires_at fs)

-- The test of the minimum is the test of each frame.
segment_is_expired-any :
    (now : Datetime) (fs : List SpoolFrame) → segment_is_expired fs now ≡ any (is_past now) fs
unfolding segment_is_expired
segment_is_expired-any now [] = refl
segment_is_expired-any now (f ∷ fs) = earliest-is_past now f.expires_at fs

-- A world that differs from `w` in what the database counts, and not in its tables.
abbrev pub Untouched : World → World → Type 0
Untouched w w' = (w'.forwarded ≡ w.forwarded) × (w'.database.tables ≡ w.database.tables)

-- A job that only reads.
record Reads {A : Type 0} (m : Job A) : Type 0 where
  untouched : (w : World) → Untouched w (m w).1

continue-Reads :
    {A B : Type 0} (r : Outcome SpoolCode A) (f : A → Job B) (w w' : World)
    → ((a : A) → Reads (f a))
    → Untouched w w'
    → Untouched w (Job.continue r f w').1
continue-Reads (ok a) f w w' rest (h, k) = let (h', k') = (rest a).untouched w' in (h' ∙ h, k' ∙ k)
continue-Reads (raised e) f w w' rest h = h

bind-Reads :
    {A B : Type 0} (m : Job A) (f : A → Job B)
    → Reads m
    → ((a : A) → Reads (f a))
    → Reads (Job.◌>>=◌ m f)
bind-Reads m f first rest = record {
  untouched = λ w. continue-Reads (m w).0 f w (m w).1 rest (first.untouched w);
}

lift-Reads : {A : Type 0} (r : Outcome SpoolCode A) → Reads (Job.lift r)
lift-Reads r = record { untouched = λ w. (refl, refl) }

read_segment_record-Reads : (batch_id : Text) → Reads (read_segment_record batch_id)
unfolding read_segment_record
read_segment_record-Reads batch_id = record {
  untouched = λ w.
      (refl, (read_segment_record-Keeps {P = λ t. t ≡ w.database.tables} batch_id).kept w refl);
}

reload_record-Reads : (given : SegmentRecord) → Reads (reload_record given)
unfolding reload_record
reload_record-Reads given =
    bind-Reads (read_segment_record given.row.batch_id) (λ r. Job.lift (matching given r))
      (read_segment_record-Reads given.row.batch_id) (λ r. lift-Reads (matching given r))

module _ (hexdigest : Text → Text) (given : SegmentRecord) (frames : List SpoolFrame)
    (exporters : Text → Option Exporter) (now : Datetime)
    (past : any (is_past now) frames ≡ true) where
  deliver_held-Reads : Reads (deliver_held hexdigest given frames exporters now)
  unfolding deliver_held
  deliver_held-Reads = bind-Reads (reload_record given) _ (reload_record-Reads given) (λ live.
      bind-Reads (Job.lift (require_frames_belong hexdigest live frames)) _
        (lift-Reads (require_frames_belong hexdigest live frames))
        (λ u. rw (segment_is_expired-any now frames ∙ past) (lift-Reads _)))

  deliver_segment-Reads :
      (barrier : Barrier) → Reads (deliver_segment hexdigest barrier given frames exporters now)
  unfolding deliver_segment Job.hold
  deliver_segment-Reads barrier =
      bind-Reads (Job.lift (require_now (instant now))) _ (lift-Reads (require_now (instant now)))
        (λ u.
          bind-Reads (Job.require barrier.bound SpoolCode.export) _
            (record { untouched = λ w. (refl, refl) })
            (λ v.
              bind-Reads (Job.hold barrier) _ (record { untouched = λ w. (refl, refl) })
                (λ w. deliver_held-Reads)))

-- If the expiry of any one frame has come, `deliver_segment` forwards nothing and writes nothing: no
-- exporter is called and every table stays as it was, whatever the call returns or raises.
pub expired_is_withheld :
    (hexdigest : Text → Text) (barrier : Barrier) (given : SegmentRecord) (frames : List SpoolFrame)
    (exporters : Text → Option Exporter) (now : Datetime) (w : World)
    → any (is_past now) frames ≡ true
    → Untouched w (deliver_segment hexdigest barrier given frames exporters now w).1
expired_is_withheld hexdigest barrier given frames exporters now w past =
    (deliver_segment-Reads hexdigest given frames exporters now past barrier).untouched w
