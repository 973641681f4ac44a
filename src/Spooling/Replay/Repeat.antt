-- ===== src/Spooling/Replay/Repeat.antt =====
-- A second replay gives the records of the first.
use milhouse_oss.Prelude.{
  ◌++◌, ◌≡◌, ◌∙◌, refl, ap, sym, inl, inr, Bool, true, false, Option, none, some, List, [], ◌∷◌,
  arith, if◌then◌else◌, map, Text,
}
use milhouse_oss.Python.Datetime.{Datetime}
use milhouse_oss.Python.Outcome.{
  Outcome, Outcome-cases, ok, raised, fault, sqlite_error, time_error, overflow_error,
  unicode_error,
}
use milhouse_oss.State.Schema.{SegmentRow, Tables}
use milhouse_oss.State.Errors.{StateCode}
use milhouse_oss.State.Database
use milhouse_oss.State.Database.{Action, ControlDatabase, select, connection}
use milhouse_oss.State.Database.Atomic.{sequence-ok, execute-ok}
use milhouse_oss.Spooling.Job
use milhouse_oss.Spooling.Job.{SpoolCode, Job, World, Barrier}
use milhouse_oss.Spooling.Keeps.{
  Keeps, bind-Keeps, lift-Keeps, pure-Keeps, list_segment_records-Keeps,
}
use milhouse_oss.Spooling.Export.Terminal.{updates, deliver_segment-Keeps}
use milhouse_oss.Spooling.Reader.{ParsedSegment}
use milhouse_oss.Spooling.Ledger.{
  SegmentRecord, ExporterDelivery, validated_segment, load_exporters, listed_rows, read_on,
  read_rows, checked, also, decoded, is_valid_segment, failed, delivered, list_segment_records,
}
use milhouse_oss.Spooling.Export.{Exporter, deliver_segment}
use milhouse_oss.Spooling.Replay.{
  ReplayReport, ids_of, prepend, verify_against_ledger, replay_all, replay_segments,
}

-- Of two jobs in a row that return: what the first one gave, and where the second one started.
job-ok :
    {A B : Type 0} (m : Job A) (f : A → Job B) (w : World) {b : B}
    → (Job.◌>>=◌ m f w).0 ≡ ok b
    → (a : A) × ((m w).0 ≡ ok a) × ((f a (m w).1).0 ≡ ok b)
job-ok m f w {b = b} h = elim (Outcome-cases (m w).0) [
  | inl (a, e) ↦ (a, e, ap (λ r. (Job.continue r f (m w).1).0) (sym e) ∙ h)
  | inr (x, e) ↦
      let k : raised x ≡ ok b = ap (λ r. (Job.continue r f (m w).1).0) (sym e) ∙ h in absurd (cc k)
]

-- A record is made of its row.
checked-row :
    (r : SegmentRow) (ds : Option (List ExporterDelivery)) (s : SegmentRecord)
    → checked r ds ≡ some s
    → s.row ≡ r
unfolding validated_segment
checked-row r none s h = absurd (cc h)
checked-row r (some ds) s h =
    ap SegmentRecord.row
      (sym (some-if (is_valid_segment r) (record { row = r; exporters = ds }) s h))
  where
    some-if : (c : Bool) (x y : SegmentRecord) → (if c then some x else none) ≡ some y → x ≡ y
    some-if true x y e = cc e
    some-if false x y e = absurd (cc e)

abbrev row_of : SegmentRecord → SegmentRow
row_of s = s.row

also-some :
    (s : SegmentRecord) (o : Option (List SegmentRecord)) (ss : List SegmentRecord)
    → also s o ≡ some ss
    → (rest : List SegmentRecord) × (o ≡ some rest) × (s ∷ rest ≡ ss)
also-some s none ss h = absurd (cc h)
also-some s (some rest) ss h = (rest, refl, cc h)

read_on-rows :
    (r : SegmentRow) (o : Option SegmentRecord) (rest : Action (Option (List SegmentRecord)))
    (rs : List SegmentRow) (db : ControlDatabase) (ss : List SegmentRecord)
    → ((s : SegmentRecord) → o ≡ some s → s.row ≡ r)
    → ((ss' : List SegmentRecord) → (rest db).0 ≡ ok (some ss') → map row_of ss' ≡ rs)
    → (read_on o rest db).0 ≡ ok (some ss)
    → map row_of ss ≡ r ∷ rs
unfolding read_on
read_on-rows r none rest rs db ss one more h = absurd (cc h)
read_on-rows r (some s) rest rs db ss one more h =
    let (o, e, f) = sequence-ok rest (λ o. Database.pure (also s o)) db {b = some ss} h in
    let k : also s o ≡ some ss = cc (ap (λ x. x.0) (sym f) ∙ h) in
    let (ss', e', k') = also-some s o ss k in
    ap (map row_of) (sym k')
    ∙ (ap (λ x. x ∷ map row_of ss') (one s refl) ∙ ap (λ l. r ∷ l) (more ss' (rw (← e') e)))

read_rows-rows :
    (rs : List SegmentRow) (db : ControlDatabase) (ss : List SegmentRecord)
    → (read_rows rs db).0 ≡ ok (some ss)
    → map row_of ss ≡ rs
unfolding read_rows
read_rows-rows [] db ss h = let k : [] ≡ ss = cc h in rw (← k) refl
read_rows-rows (r ∷ rs) db ss h =
    let (ds, e, f) = sequence-ok (load_exporters r.batch_id) _ db {b = some ss} h in
    let db' = (load_exporters r.batch_id db).1 in
    read_on-rows r (checked r ds) (read_rows rs) rs db' ss (checked-row r ds)
      (read_rows-rows rs db') (ap (λ x. x.0) (sym f) ∙ h)

listed_rows-all :
    (t t' : Tables) (rs : List SegmentRow) → listed_rows none t rs ≡ listed_rows none t' rs
unfolding listed_rows
listed_rows-all t t' [] = refl
listed_rows-all t t' (r ∷ rs) = rw (listed_rows-all t t' rs) refl

decoded-some :
    (r : Outcome StateCode (Option (List SegmentRecord))) (ss : List SegmentRecord)
    → decoded r ≡ ok ss
    → r ≡ ok (some ss)
decoded-some (ok (some x)) ss h = cc h
decoded-some (ok none) ss h = absurd (cc h)
decoded-some (raised (fault c)) ss h = absurd (cc h)
decoded-some (raised sqlite_error) ss h = absurd (cc h)
decoded-some (raised (time_error c)) ss h = absurd (cc h)
decoded-some (raised overflow_error) ss h = absurd (cc h)
decoded-some (raised unicode_error) ss h = absurd (cc h)

connection-ok :
    {A : Type 0} (m : Action A) (db : ControlDatabase) {a : A}
    → (connection m db).0 ≡ ok a
    → (m db).0 ≡ ok a
unfolding connection
connection-ok m db h = ground arith

list_segment_records-rows :
    (w : World) (ss : List SegmentRecord)
    → (list_segment_records none w).0 ≡ ok ss
    → map row_of ss ≡ listed_rows none w.database.tables w.database.tables.segments
unfolding list_segment_records
list_segment_records-rows w ss h =
    let db = w.database in
    let query : Action (List SegmentRow) = select (λ t. listed_rows none t t.segments) in
    let k = decoded-some (connection (Database.◌>>=◌ query read_rows) db).0 ss h in
    let k' = connection-ok (Database.◌>>=◌ query read_rows) db {a = some ss} k in
    let (rs, e, f) = sequence-ok query read_rows db {b = some ss} k' in
    let (same, x) = execute-ok (λ t. (listed_rows none t t.segments, t)) db {a = rs} e in
    read_rows-rows rs (query db).1 ss (ap (λ x. x.0) (sym f) ∙ k') ∙ sym same

module _ (hexdigest : Text → Text) (read : Text → Text → Outcome SpoolCode ParsedSegment) where
  abbrev ids_read : Outcome SpoolCode ParsedSegment → List Text
  ids_read (ok p) = ids_of p.frames
  ids_read (raised e) = []

  -- The ids of the records in the files of these rows.
  abbrev ids_at : List SegmentRow → List Text
  ids_at [] = []
  ids_at (r ∷ rs) = ids_read (read r.day r.batch_id) ++ ids_at rs

  abbrev batches : List SegmentRow → List Text
  batches rs = map SegmentRow.batch_id rs

  module _ (barrier : Barrier) (exporters : Text → Option Exporter) (now : Datetime) where
    abbrev nothing_replayed : ReplayReport
    nothing_replayed = record { segments = []; record_ids = []; delivery_attempts = [] }

    replay_all-ids :
        (ss : List SegmentRecord) (w : World) (r : ReplayReport)
        → (replay_all hexdigest read barrier exporters now ss w).0 ≡ ok r
        → (r.segments ≡ batches (map row_of ss)) × (r.record_ids ≡ ids_at (map row_of ss))
    unfolding replay_all
    replay_all-ids [] w r h =
        let k : nothing_replayed ≡ r = cc h in
        (ap ReplayReport.segments (sym k), ap ReplayReport.record_ids (sym k))
    replay_all-ids (s ∷ ss) w r h =
        let (p, e1, h1) = job-ok (Job.lift (read s.row.day s.row.batch_id)) _ w {b = r} h in
        let (u, e2, h2) = job-ok (Job.lift (verify_against_ledger p s)) _ w {b = r} h1 in
        let deliver = deliver_segment hexdigest barrier s p.frames exporters now in
        let (attempts, e3, h3) = job-ok deliver _ w {b = r} h2 in
        let (rest, e4, h4) =
          job-ok (replay_all hexdigest read barrier exporters now ss) _ (deliver w).1 {b = r} h3 in
        let k : prepend s p attempts rest ≡ r = cc h4 in
        let (batches_same, ids_same) = replay_all-ids ss (deliver w).1 rest e4 in
        (
          ap ReplayReport.segments (sym k) ∙ ap (λ l. s.row.batch_id ∷ l) batches_same,
          ap ReplayReport.record_ids (sym k)
              ∙ (ap (λ l. ids_of p.frames ++ l) ids_same
                  ∙ ap (λ o. ids_read o ++ ids_at (map row_of ss)) (sym e1)),
        )

    replay_all-Keeps :
        {P : Tables → Type 0}
        → ((b e status : Text) (t : Tables) → P t → P (updates b e status t))
        → (ss : List SegmentRecord) → Keeps P (replay_all hexdigest read barrier exporters now ss)
    unfolding replay_all
    replay_all-Keeps keep [] = pure-Keeps _
    replay_all-Keeps {P = P} keep (s ∷ ss) =
        bind-Keeps (Job.lift (read s.row.day s.row.batch_id)) _ (lift-Keeps _) (λ p.
          bind-Keeps (Job.lift (verify_against_ledger p s)) _
            (lift-Keeps (verify_against_ledger p s))
            (λ u.
              bind-Keeps (deliver_segment hexdigest barrier s p.frames exporters now) _
                (deliver_segment-Keeps P p.frames exporters (λ b e. keep b e failed)
                  (λ b e x live k c. keep b e delivered) hexdigest barrier s now)
                (λ attempts.
                  bind-Keeps (replay_all hexdigest read barrier exporters now ss) _
                    (replay_all-Keeps keep ss) (λ rest. pure-Keeps _))))

    -- What a replay of every segment says, from the table of segments that it started from.
    replay_segments-ids :
        (w : World) (r : ReplayReport)
        → (replay_segments hexdigest read barrier exporters now none w).0 ≡ ok r
        → (r.segments ≡ batches (listed_rows none w.database.tables w.database.tables.segments))
          × (r.record_ids ≡ ids_at (listed_rows none w.database.tables w.database.tables.segments))
    unfolding replay_segments
    replay_segments-ids w r h =
        let (ss, e, h') = job-ok (list_segment_records none) _ w {b = r} h in
        let rows = list_segment_records-rows w ss e in
        let (i, j) = replay_all-ids ss (list_segment_records none w).1 r h' in
        (i ∙ ap batches rows, j ∙ ap ids_at rows)

    replay_segments-Keeps :
        {P : Tables → Type 0} (status : Option Text)
        → ((b e s : Text) (t : Tables) → P t → P (updates b e s t))
        → Keeps P (replay_segments hexdigest read barrier exporters now status)
    unfolding replay_segments
    replay_segments-Keeps status keep =
        bind-Keeps (list_segment_records status) _ (list_segment_records-Keeps status)
          (λ ss. replay_all-Keeps keep ss)

-- If a replay of every segment returns, and a second one after it returns too, then the second gives
-- the same segments and the same record ids in the same order, whatever the first has delivered, and
-- whatever barrier, exporters and instant the second is called with. The files read the same.
pub replay_again :
    (hexdigest : Text → Text) (read : Text → Text → Outcome SpoolCode ParsedSegment)
    (barrier barrier' : Barrier) (exporters exporters' : Text → Option Exporter)
    (now now' : Datetime) (w : World) (r r' : ReplayReport)
    → (replay_segments hexdigest read barrier exporters now none w).0 ≡ ok r
    → (replay_segments hexdigest read barrier' exporters' now' none
        (replay_segments hexdigest read barrier exporters now none w).1).0
      ≡ ok r'
    → (r'.segments ≡ r.segments) × (r'.record_ids ≡ r.record_ids)
replay_again hexdigest read barrier barrier' exporters exporters' now now' w r r' h h' =
    let w' : World = (replay_segments hexdigest read barrier exporters now none w).1 in
    let kept : w'.database.tables.segments ≡ w.database.tables.segments =
      (replay_segments-Keeps hexdigest read barrier exporters now
          {P = λ t. t.segments ≡ w.database.tables.segments} none (λ b e s t k. k)).kept
        w refl in
    let rows =
      listed_rows-all w'.database.tables w.database.tables w'.database.tables.segments
      ∙ ap (listed_rows none w.database.tables) kept in
    let (i, j) = replay_segments-ids hexdigest read barrier exporters now w r h in
    let (i', j') = replay_segments-ids hexdigest read barrier' exporters' now' w' r' h' in
    (
      i' ∙ (ap (batches hexdigest read) rows ∙ sym i),
      j' ∙ (ap (ids_at hexdigest read) rows ∙ sym j),
    )
