-- ===== src/Spooling/Ledger.antt =====
-- src/milhouse/spooling/ledger.py: the rows of committed segments, and their records.
use milhouse_oss.Prelude.{
  ℕ, ◌+◌, ◌-◌, ◌*◌, Bool, true, false, not, ◌&&◌, ◌||◌, Option, none, some, List, [], ◌∷◌, ltb, leb,
  ◌==◌, if◌then◌else◌, Text, codes, text_eq, text_lt, text_in,
}
use milhouse_oss.Python.Datetime.{is_leap}
use milhouse_oss.Python.Patterns.{is_name, is_sha256_hex, is_stamp, fits}
use milhouse_oss.Python.Outcome.{Outcome, ok, raised, fault, sqlite_error}
use milhouse_oss.State.Errors.{StateCode}
use milhouse_oss.State.Schema.{SegmentRow, ExporterRow, Tables}
use milhouse_oss.State.Table.{find}
use milhouse_oss.State.Database
use milhouse_oss.State.Database.{Action, bind_integer, execute, select, change, connection}
use milhouse_oss.Spooling.Job.{SpoolCode, Job, handled}

pub record ExporterDelivery : Type 0 where
  pub exporter_id : Text
  pub delivery_status : Text

-- The row, whose fields the source repeats, and the delivery rows.
pub record SegmentRecord : Type 0 where
  pub row : SegmentRow
  pub exporters : List ExporterDelivery

abbrev pub pending : Text
pending = codes "pending"

abbrev pub delivered : Text
delivered = codes "delivered"

abbrev pub failed : Text
failed = codes "failed"

-- `_DELIVERY_STATES`
abbrev pub delivery_states : List Text
delivery_states = pending ∷ delivered ∷ failed ∷ []

-- A number of two digits.
two_digits : ℕ → ℕ → ℕ
two_digits a b = (a - b'0') * 10 + (b - b'0')

days_in_month : ℕ → ℕ → ℕ
unfolding is_leap
days_in_month y m =
    if m == 2
    then (if is_leap y then 29 else 28)
    else if (m == 4) || (m == 6) || (m == 9) || (m == 11)
    then 30
    else 31

-- `datetime.strptime(day, "%Y-%m-%d")` of a text `YYYY-MM-DD`; any other text is refused here, and by
-- the comparison with `committed_at` in the source.
unfoldable pub is_day : Text → Bool
unfolding two_digits days_in_month
is_day (a ∷ b ∷ c ∷ d ∷ p ∷ m ∷ n ∷ q ∷ e ∷ f ∷ []) =
    let y : ℕ = two_digits a b * 100 + two_digits c d in
    let month : ℕ = two_digits m n in
    let day : ℕ = two_digits e f in
    fits (codes "dddd-dd-dd") (a ∷ b ∷ c ∷ d ∷ p ∷ m ∷ n ∷ q ∷ e ∷ f ∷ [])
    && ltb 0 y
    && ltb 0 month
    && leb month 12
    && ltb 0 day
    && leb day (days_in_month y month)
is_day _ = false

-- `committed_at[:10]`
unfoldable pub prefix : ℕ → Text → Text
prefix n [] = []
prefix n (c ∷ s) = let rest = prefix (n - 1) s in if n == 0 then [] else c ∷ rest

abbrev pub is_some_text : Option Text → Bool
is_some_text none = false
is_some_text (some s) = true

abbrev pub same : Bool → Bool → Bool
same true b = b
same false b = not b

-- The tests of `validated_segment`.
unfoldable pub is_valid_segment : SegmentRow → Bool
unfolding is_name is_sha256_hex is_stamp is_day prefix
is_valid_segment r =
    is_name 127 r.batch_id
    && is_day r.day
    && (r.schema_version == 1)
    && (r.frame_version == 1)
    && is_sha256_hex r.config_generation
    && text_in r.scope (codes "installation" ∷ codes "target" ∷ [])
    && same (text_eq r.scope (codes "target")) (is_some_text r.target_id)
    && text_in r.privacy_class (codes "public" ∷ codes "internal" ∷ codes "sensitive" ∷ [])
    && leb 1 r.retention_days
    && leb r.retention_days 3650
    && ltb 0 r.byte_size
    && is_sha256_hex r.content_sha256
    && is_sha256_hex r.file_sha256
    && is_stamp r.committed_at
    && text_eq (prefix 10 r.committed_at) r.day
    && text_in r.origin (codes "committed" ∷ codes "reconciled" ∷ [])

-- `none` is a ValueError, which every caller handles.
unfoldable pub validated_segment : SegmentRow → List ExporterDelivery → Option SegmentRecord
unfolding is_valid_segment
validated_segment r exporters =
    if is_valid_segment r then some (record { row = r; exporters = exporters }) else none

abbrev pub is_segment : Text → SegmentRow → Bool
is_segment batch_id r = text_eq r.batch_id batch_id

abbrev pub of_segment : Text → ExporterRow → Bool
of_segment batch_id r = text_eq r.batch_id batch_id

abbrev pub is_exporter : Text → Text → ExporterRow → Bool
is_exporter batch_id exporter_id r =
    text_eq r.batch_id batch_id && text_eq r.exporter_id exporter_id

-- `ORDER BY exporter_id`
unfoldable pub insert_delivery : ExporterDelivery → List ExporterDelivery → List ExporterDelivery
insert_delivery d [] = d ∷ []
insert_delivery d (e ∷ es) =
    let rest = insert_delivery d es in
    if text_lt e.exporter_id d.exporter_id then e ∷ rest else d ∷ e ∷ es

unfoldable pub deliveries : Text → List ExporterRow → List ExporterDelivery
unfolding insert_delivery
deliveries batch_id [] = []
deliveries batch_id (r ∷ rs) =
    let rest = deliveries batch_id rs in
    if of_segment batch_id r
    then insert_delivery
        (record { exporter_id = r.exporter_id; delivery_status = r.delivery_status }) rest
    else rest

unfoldable pub are_valid_deliveries : List ExporterDelivery → Bool
unfolding is_name
are_valid_deliveries [] = true
are_valid_deliveries (d ∷ ds) =
    is_name 63 d.exporter_id && text_in d.delivery_status delivery_states && are_valid_deliveries ds

-- `load_exporters`; `none` is a ValueError.
unfoldable pub load_exporters : Text → Action (Option (List ExporterDelivery))
unfolding execute deliveries are_valid_deliveries
load_exporters batch_id =
    Database.◌>>=◌ (select (λ t. deliveries batch_id t.segment_exporters))
      λ ds. Database.pure (if are_valid_deliveries ds then some ds else none)

abbrev pub checked : SegmentRow → Option (List ExporterDelivery) → Option SegmentRecord
checked r none = none
checked r (some ds) = validated_segment r ds

-- `INSERT INTO`, which a row of the same key refuses.
unfoldable pub insert_new : (Tables → Bool) → (Tables → Tables) → Action (Unit {0})
unfolding execute
insert_new clashes f =
    Database.◌>>=◌ (execute (λ t. if clashes t then (true, t) else (false, f t)))
      λ clash. Database.lift (if clash then raised sqlite_error else ok tt)

abbrev pub has {ℓ} : {R : Type ℓ} → Option R → Bool
has none = false
has (some r) = true

unfoldable pub insert_exporter_rows : Text → List ExporterDelivery → Action (Unit {0})
unfolding insert_new
insert_exporter_rows batch_id [] = Database.pure tt
insert_exporter_rows batch_id (d ∷ ds) =
    Database.◌>>◌
      (insert_new (λ t. has (find (is_exporter batch_id d.exporter_id) t.segment_exporters))
        (λ t. record t {
          segment_exporters =
              (record {
                batch_id = batch_id;
                exporter_id = d.exporter_id;
                delivery_status = d.delivery_status;
              })
              ∷ t.segment_exporters;
        }))
      (insert_exporter_rows batch_id ds)

-- The numbers of a row, as parameters of a statement.
unfoldable pub bind_row : SegmentRow → Action (Unit {0})
unfolding bind_integer
bind_row r =
    Database.◌>>◌
      (Database.◌>>◌
        (Database.◌>>◌
          (Database.◌>>◌ (bind_integer r.schema_version) (bind_integer r.frame_version))
          (bind_integer r.retention_days))
        (bind_integer r.record_count))
      (bind_integer r.byte_size)

-- On the connection of the caller's transaction.
unfoldable pub insert_segment_row : SegmentRecord → Action (Unit {0})
unfolding bind_row insert_exporter_rows
insert_segment_row s =
    Database.◌>>◌
      (Database.◌>>◌ (bind_row s.row) (
        insert_new (λ t. has (find (is_segment s.row.batch_id) t.segments))
          (λ t. record t { segments = s.row ∷ t.segments })))
      (insert_exporter_rows s.row.batch_id s.exporters)

-- The body of the `try` block of `read_segment_record`: `none` is a ValueError.
unfoldable pub read_row : Option SegmentRow → Action (Option (Option SegmentRecord))
unfolding load_exporters validated_segment
read_row none = Database.pure (some none)
read_row (some r) =
    Database.◌>>=◌ (load_exporters r.batch_id)
      λ ds. Database.pure (elim (checked r ds) [ none ↦ none | some s ↦ some (some s) ])

-- `except (sqlite3.Error, StateError, ValueError, TypeError)`
abbrev pub decoded : {A : Type 0} → Outcome StateCode (Option A) → Outcome SpoolCode A
decoded (ok (some a)) = ok a
decoded (ok none) = raised (fault SpoolCode.ledger)
decoded (raised e) = handled SpoolCode.ledger (raised e)

abbrev pub decode : {A : Type 0} → Action (Option A) → Job A
decode m w = let (r, db) = m w.database in (decoded r, record w { database = db })

unfoldable pub read_segment_record : Text → Job (Option SegmentRecord)
unfolding read_row connection execute
read_segment_record batch_id =
    decode
      (connection (Database.◌>>=◌ (select (λ t. find (is_segment batch_id) t.segments)) read_row))

-- `ORDER BY batch_id`
unfoldable pub insert_row : SegmentRow → List SegmentRow → List SegmentRow
insert_row r [] = r ∷ []
insert_row r (x ∷ xs) =
    let rest = insert_row r xs in if text_lt x.batch_id r.batch_id then x ∷ rest else r ∷ x ∷ xs

unfoldable pub has_status : Text → Text → List ExporterRow → Bool
has_status batch_id status [] = false
has_status batch_id status (r ∷ rs) =
    let rest = has_status batch_id status rs in
    (of_segment batch_id r && text_eq r.delivery_status status) || rest

abbrev pub is_listed : Option Text → Tables → SegmentRow → Bool
is_listed none t r = true
is_listed (some status) t r = has_status r.batch_id status t.segment_exporters

unfoldable pub listed_rows : Option Text → Tables → List SegmentRow → List SegmentRow
unfolding insert_row has_status
listed_rows status t [] = []
listed_rows status t (r ∷ rs) =
    let rest = listed_rows status t rs in if is_listed status t r then insert_row r rest else rest

abbrev pub also : SegmentRecord → Option (List SegmentRecord) → Option (List SegmentRecord)
also s none = none
also s (some ss) = some (s ∷ ss)

unfoldable pub read_on :
    Option SegmentRecord
    → Action (Option (List SegmentRecord))
    → Action (Option (List SegmentRecord))
read_on none rest = Database.pure none
read_on (some s) rest = Database.◌>>=◌ rest λ ss. Database.pure (also s ss)

-- One record after the other, until the first ValueError.
unfoldable pub read_rows : List SegmentRow → Action (Option (List SegmentRecord))
unfolding load_exporters validated_segment read_on
read_rows [] = Database.pure (some [])
read_rows (r ∷ rs) =
    Database.◌>>=◌ (load_exporters r.batch_id) λ ds. read_on (checked r ds) (read_rows rs)

unfoldable pub list_segment_records : Option Text → Job (List SegmentRecord)
unfolding read_rows listed_rows connection execute
list_segment_records status =
    decode (connection (Database.◌>>=◌ (select (λ t. listed_rows status t t.segments)) read_rows))
