-- ===== src/Spooling/Keeps.antt =====
-- Properties of the tables that a job keeps, however it ends.
use milhouse_oss.Prelude.{
  ◌≡◌, Bool, true, false, Option, none, some, List, [], ◌∷◌, arith, inl, inr, ◌⊎◌, Text,
  if◌then◌else◌,
}
use milhouse_oss.Python.Outcome.{Outcome, ok, raised}
use milhouse_oss.State.Errors.{StateCode}
use milhouse_oss.State.Schema.{SegmentRow, Tables}
use milhouse_oss.State.Database
use milhouse_oss.State.Database.{
  Action, ControlDatabase, execute, select, connection, transaction, attempt,
}
use milhouse_oss.State.Database.Atomic.{begun, transaction-either}
use milhouse_oss.Spooling.Job.{
  SpoolCode, Job, World, pure, lift, ◌>>=◌, continue, require, on_database, Barrier, hold,
}
use milhouse_oss.Spooling.Ledger.{
  SegmentRecord, decode, read_segment_record, read_row, read_on, load_exporters,
  list_segment_records, read_rows, checked,
}

-- An action on the database.
pub record ActionKeeps (P : Tables → Type 0) {A : Type 0} (m : Action A) : Type 0 where
  pub kept : (db : ControlDatabase) → P db.tables → P (m db).1.tables

pub record Keeps (P : Tables → Type 0) {A : Type 0} (m : Job A) : Type 0 where
  pub kept : (w : World) → P w.database.tables → P (m w).1.database.tables

pub execute-either :
    {A : Type 0} (statement : Tables → A × Tables) (db : ControlDatabase)
    → ((execute statement db).1.tables ≡ db.tables)
      ⊎ ((execute statement db).1.tables ≡ (statement db.tables).1)
unfolding execute
execute-either statement db = ground arith

connection-either :
    {A : Type 0} (m : Action A) (db : ControlDatabase)
    → ((connection m db).1.tables ≡ db.tables) ⊎ ((connection m db).1.tables ≡ (m db).1.tables)
unfolding connection
connection-either m db = ground arith

module _ {P : Tables → Type 0} where
  pub pure-ActionKeeps : {A : Type 0} (a : A) → ActionKeeps P (Database.pure a)
  pure-ActionKeeps a = record { kept = λ db h. h }

  pub execute-ActionKeeps :
      {A : Type 0} (statement : Tables → A × Tables)
      → ((t : Tables) → P t → P (statement t).1)
      → ActionKeeps P (execute statement)
  execute-ActionKeeps statement keep = record {
    kept = λ db h. elim (execute-either statement db) [
      | inl e ↦ rw e h
      | inr e ↦ rw e (keep db.tables h)
    ];
  }

  pub select-ActionKeeps : {A : Type 0} (query : Tables → A) → ActionKeeps P (select query)
  select-ActionKeeps query = execute-ActionKeeps (λ t. (query t, t)) (λ t h. h)

  continue-ActionKeeps :
      {A B : Type 0} (r : Outcome StateCode A) (f : A → Action B) (db : ControlDatabase)
      → ((a : A) → ActionKeeps P (f a))
      → P db.tables
      → P (Database.continue r f db).1.tables
  continue-ActionKeeps (ok a) f db keep h = (keep a).kept db h
  continue-ActionKeeps (raised e) f db keep h = h

  pub bind-ActionKeeps :
      {A B : Type 0} (m : Action A) (f : A → Action B)
      → ActionKeeps P m
      → ((a : A) → ActionKeeps P (f a))
      → ActionKeeps P (Database.◌>>=◌ m f)
  bind-ActionKeeps m f first rest = record {
    kept = λ db h. continue-ActionKeeps (m db).0 f (m db).1 rest (first.kept db h);
  }

  pub if-ActionKeeps :
      {A : Type 0} (b : Bool) (m n : Action A)
      → ActionKeeps P m
      → ActionKeeps P n
      → ActionKeeps P (if b then m else n)
  if-ActionKeeps true m n p q = p
  if-ActionKeeps false m n p q = q

  pub lift-ActionKeeps : {A : Type 0} (r : Outcome StateCode A) → ActionKeeps P (Database.lift r)
  lift-ActionKeeps r = record { kept = λ db h. h }

  pub attempt-ActionKeeps :
      {A : Type 0} (c : StateCode) (m : Action A) → ActionKeeps P m → ActionKeeps P (attempt c m)
  attempt-ActionKeeps c m keep = record { kept = λ db h. keep.kept db h }

  pub connection-ActionKeeps :
      {A : Type 0} (m : Action A) → ActionKeeps P m → ActionKeeps P (connection m)
  connection-ActionKeeps m keep = record {
    kept = λ db h. elim (connection-either m db) [ inl e ↦ rw e h | inr e ↦ rw e (keep.kept db h) ];
  }

  pub transaction-ActionKeeps :
      {A : Type 0} (m : Action A) → ActionKeeps P m → ActionKeeps P (transaction m)
  transaction-ActionKeeps m keep = record {
    kept = λ db h. elim (transaction-either m db) [
      | inl e ↦ rw e h
      | inr e ↦ rw e (keep.kept (begun db) h)
    ];
  }

  pub pure-Keeps : {A : Type 0} (a : A) → Keeps P (pure a)
  pure-Keeps a = record { kept = λ w h. h }

  pub lift-Keeps : {A : Type 0} (r : Outcome SpoolCode A) → Keeps P (lift r)
  lift-Keeps r = record { kept = λ w h. h }

  pub require-Keeps : (b : Bool) (c : SpoolCode) → Keeps P (require b c)
  require-Keeps b c = record { kept = λ w h. h }

  pub hold-Keeps : (b : Barrier) → Keeps P (hold b)
  unfolding hold
  hold-Keeps b = record { kept = λ w h. h }

  continue-Keeps :
      {A B : Type 0} (r : Outcome SpoolCode A) (f : A → Job B) (w : World)
      → ((a : A) → Keeps P (f a))
      → P w.database.tables
      → P (continue r f w).1.database.tables
  continue-Keeps (ok a) f w keep h = (keep a).kept w h
  continue-Keeps (raised e) f w keep h = h

  pub bind-Keeps :
      {A B : Type 0} (m : Job A) (f : A → Job B)
      → Keeps P m
      → ((a : A) → Keeps P (f a))
      → Keeps P (m >>= f)
  bind-Keeps m f first rest = record {
    kept = λ w h. continue-Keeps (m w).0 f (m w).1 rest (first.kept w h);
  }

  pub on_database-Keeps :
      {A : Type 0} (c : SpoolCode) (m : Action A) → ActionKeeps P m → Keeps P (on_database c m)
  on_database-Keeps c m keep = record { kept = λ w h. keep.kept w.database h }

  pub decode-Keeps : {A : Type 0} (m : Action (Option A)) → ActionKeeps P m → Keeps P (decode m)
  decode-Keeps m keep = record { kept = λ w h. keep.kept w.database h }

  pub if-Keeps :
      {A : Type 0} (b : Bool) (m n : Job A) → Keeps P m → Keeps P n → Keeps P (if b then m else n)
  if-Keeps true m n p q = p
  if-Keeps false m n p q = q

  pub load_exporters-ActionKeeps : (batch_id : Text) → ActionKeeps P (load_exporters batch_id)
  unfolding load_exporters
  load_exporters-ActionKeeps batch_id =
      bind-ActionKeeps _ _ (select-ActionKeeps _) (λ ds. pure-ActionKeeps _)

  read_row-ActionKeeps : (r : Option SegmentRow) → ActionKeeps P (read_row r)
  unfolding read_row
  read_row-ActionKeeps none = pure-ActionKeeps _
  read_row-ActionKeeps (some r) =
      bind-ActionKeeps _ _ (load_exporters-ActionKeeps r.batch_id) (λ ds. pure-ActionKeeps _)

  pub read_segment_record-Keeps : (batch_id : Text) → Keeps P (read_segment_record batch_id)
  unfolding read_segment_record
  read_segment_record-Keeps batch_id = decode-Keeps _ (
      connection-ActionKeeps _
        (bind-ActionKeeps _ _ (select-ActionKeeps _) (λ r. read_row-ActionKeeps r)))

  read_on-ActionKeeps :
      (o : Option SegmentRecord) (rest : Action (Option (List SegmentRecord)))
      → ActionKeeps P rest
      → ActionKeeps P (read_on o rest)
  unfolding read_on
  read_on-ActionKeeps none rest keep = pure-ActionKeeps _
  read_on-ActionKeeps (some s) rest keep = bind-ActionKeeps _ _ keep (λ ss. pure-ActionKeeps _)

  read_rows-ActionKeeps : (rs : List SegmentRow) → ActionKeeps P (read_rows rs)
  unfolding read_rows
  read_rows-ActionKeeps [] = pure-ActionKeeps _
  read_rows-ActionKeeps (r ∷ rs) =
      bind-ActionKeeps _ _ (load_exporters-ActionKeeps r.batch_id)
        (λ ds. read_on-ActionKeeps (checked r ds) (read_rows rs) (read_rows-ActionKeeps rs))

  pub list_segment_records-Keeps : (status : Option Text) → Keeps P (list_segment_records status)
  unfolding list_segment_records
  list_segment_records-Keeps status = decode-Keeps _ (
      connection-ActionKeeps _
        (bind-ActionKeeps _ _ (select-ActionKeeps _) (λ rs. read_rows-ActionKeeps rs)))
