-- ===== src/Spooling/Retention/Effect.antt =====
-- What a prune leaves behind.
use milhouse_oss.Prelude.{
  pos, suc, ◌++◌, ◌≡◌, ◌≢◌, refl, ap, sym, ◌∙◌, inl, inr, Bool, false, not, Option, none, some, [],
  ◌∷◌, arith, if◌then◌else◌, Text, codes, text_eq, text_eq_refl,
}
use milhouse_oss.Python.Datetime.{Datetime}
use milhouse_oss.Python.Value.{instant, int, str, bool}
use milhouse_oss.Python.Outcome.{
  Exception, Outcome, Outcome-cases, ok, raised, fault, time_error, sqlite_error, overflow_error,
  unicode_error,
}
use milhouse_oss.Core.Clock.{format_timestamp}
use milhouse_oss.State.Errors.{StateCode}
use milhouse_oss.State.Schema.{AuditRecord, Retirement, Tables}
use milhouse_oss.State.Table.{find, find-delete_self, find-update_away, find-append_new, delete}
use milhouse_oss.State.Database
use milhouse_oss.State.Database.{Action, ControlDatabase, change, transaction}
use milhouse_oss.State.Database.Atomic.{
  begun, transaction-ok, transaction-atomic, execute-ok, sequence-ok,
}
use milhouse_oss.State.Audit.Append.{record_retention_prune-Recorded}
use milhouse_oss.State.Audit.{append_audit, prune_row}
use milhouse_oss.Spooling.Job
use milhouse_oss.Spooling.Job.{SpoolCode, Job, World}
use milhouse_oss.Spooling.Keeps.{transaction-ActionKeeps, execute-ActionKeeps}
use milhouse_oss.Spooling.Reader.{ParsedSegment}
use milhouse_oss.Spooling.Ledger.{SegmentRecord, is_segment, of_segment, has, insert_new}
use milhouse_oss.Spooling.Agreement.{all_delivered}
use milhouse_oss.Spooling.Retention.{
  PrunedSegment, FileOutcome, pruned_segment, removed, orphaned, uncertain, clear_retirement,
  clear_rows, unlink, clear_if_removed, detached, detach_cursors, delete_exporters, delete_segment,
  tombstone, insert_tombstone, prune_audit, prune_rows, prune_committed, remove_file, prune_at,
  prune_segment, succeeded,
}

abbrev pub of_retirement : Text → Retirement → Bool
of_retirement b r = text_eq r.batch_id b

-- Nothing of segment `b` is left but its tombstone, and the prune is on record.
pub record Gone (b : Text) (before after : Tables) : Type 0 where
  pub segment_gone : find (is_segment b) after.segments ≡ none
  pub exporters_gone : find (of_segment b) after.segment_exporters ≡ none
  pub cursors_detached : find (detached b) after.cursors ≡ none
  pub prune_record : AuditRecord
  pub is_prune : prune_record.action ≡ codes "retention_prune"
  pub recorded : after.audit ≡ before.audit ++ prune_record ∷ []

-- The rows that the deletions leave.
abbrev deleted : Text → Tables → Tables
deleted b t = delete_segment b (delete_exporters b (detach_cursors b t))

abbrev entombed : SegmentRecord → Text → Tables → Tables
entombed s at t = record t { retirements = t.retirements ++ tombstone s at ∷ [] }

-- A call that, when it returns, has made this of the tables.
record Does (m : Action (Unit {0})) (f : Tables → Tables) : Type 0 where
  done : (db : ControlDatabase) → (m db).0 ≡ ok tt → (m db).1.tables ≡ f db.tables

change-Does : (f : Tables → Tables) → Does (change f) f
change-Does f = record { done = λ db h. (execute-ok (λ t. (tt, f t)) db h).1 }

-- Of two calls in a row: both have returned.
both-ok :
    (m n : Action (Unit {0})) (db : ControlDatabase)
    → (Database.◌>>◌ m n db).0 ≡ ok tt
    → ((m db).0 ≡ ok tt) × ((n (m db).1).0 ≡ ok tt) × (Database.◌>>◌ m n db ≡ n (m db).1)
both-ok m n db h =
    let (u, e, f) = sequence-ok m (λ x. n) db {b = tt} h in (e, ap (λ r. r.0) (sym f) ∙ h, f)

then-Does :
    (m n : Action (Unit {0})) (f g : Tables → Tables)
    → Does m f
    → Does n g
    → Does (Database.◌>>◌ m n) (λ t. g (f t))
then-Does m n f g p q = record {
  done = λ db h.
      let (e, k, same) = both-ok m n db h in
      ap (λ r. r.1.tables) same ∙ (q.done (m db).1 k ∙ ap g (p.done db e));
}

has-none {ℓ} : {R : Type ℓ} (o : Option R) → has o ≡ false → o ≡ none
has-none none h = refl
has-none (some r) h = absurd (cc h)

insert_new-ok :
    (clashes : Tables → Bool) (f : Tables → Tables) (db : ControlDatabase) {u : Unit {0}}
    → (insert_new clashes f db).0 ≡ ok u
    → (clashes db.tables ≡ false) × ((insert_new clashes f db).1.tables ≡ f db.tables)
unfolding insert_new Database.execute
insert_new-ok clashes f db h = ground (arith, h)

insert_tombstone-ok :
    (s : SegmentRecord) (at : Text) (db : ControlDatabase)
    → (insert_tombstone s at db).0 ≡ ok tt
    → (find (of_retirement s.row.batch_id) db.tables.retirements ≡ none)
      × ((insert_tombstone s at db).1.tables ≡ entombed s at db.tables)
unfolding insert_tombstone
insert_tombstone-ok s at db h =
    let (new, e) =
      insert_new-ok (λ t. has (find (of_retirement s.row.batch_id) t.retirements)) (entombed s at)
        db h in
    (has-none (find (of_retirement s.row.batch_id) db.tables.retirements) new, e)

deletions : Text → Action (Unit {0})
deletions b =
    Database.◌>>◌ (Database.◌>>◌ (change (detach_cursors b)) (change (delete_exporters b)))
      (change (delete_segment b))

deletions-Does : (b : Text) → Does (deletions b) (deleted b)
unfolding deletions
deletions-Does b =
    then-Does (Database.◌>>◌ (change (detach_cursors b)) (change (delete_exporters b)))
      (change (delete_segment b)) (λ t. delete_exporters b (detach_cursors b t)) (delete_segment b)
      (then-Does (change (detach_cursors b)) (change (delete_exporters b)) (detach_cursors b)
        (delete_exporters b) (change-Does (detach_cursors b)) (change-Does (delete_exporters b)))
      (change-Does (delete_segment b))

-- The tables that a committed prune leaves.
abbrev pruned_tables : SegmentRecord → Text → AuditRecord → Tables → Tables
pruned_tables s at x t = append_audit x (entombed s at (deleted s.row.batch_id t))

record Committed (s : SegmentRecord) (at : Text) (before after : Tables) : Type 0 where
  prune_record : AuditRecord
  is_prune : prune_record.action ≡ codes "retention_prune"
  fresh_tombstone : find (of_retirement s.row.batch_id) before.retirements ≡ none
  result : after ≡ pruned_tables s at prune_record before

prune_rows-Committed :
    (s : SegmentRecord) (now : Datetime) (at : Text) (db : ControlDatabase)
    → (prune_rows s now at db).0 ≡ ok tt
    → Committed s at db.tables (prune_rows s now at db).1.tables
unfolding prune_rows deletions detach_cursors delete_exporters delete_segment
prune_rows-Committed s now at db h =
    let b : Text = s.row.batch_id in
    let m = Database.◌>>◌ (deletions b) (insert_tombstone s at) in
    let (e, k, f) = both-ok m (prune_audit s now) db h in
    let (e', k', f') = both-ok (deletions b) (insert_tombstone s at) db e in
    let t = (deletions-Does b).done db e' in
    let (new, t') = insert_tombstone-ok s at (deletions b db).1 k' in
    let c =
      record_retention_prune-Recorded (instant now) (str b) (int (pos s.row.record_count))
        (int (pos s.row.byte_size)) (bool (not (all_delivered s))) none (m db).1 k in
    let x = prune_row c.undelivered c.resource c.records c.bytes c.stamp in
    record {
      prune_record = x;
      is_prune = refl;
      fresh_tombstone = ap (λ x. find (of_retirement b) x.retirements) (sym t) ∙ new;
      result =
          ap (λ r. r.1.tables) f
          ∙ (c.appended
              ∙ ap (append_audit x) (ap (λ r. r.1.tables) f' ∙ (t' ∙ ap (entombed s at) t)));
    }

Committed-Gone :
    (s : SegmentRecord) (at : Text) (before after : Tables)
    → Committed s at before after
    → Gone s.row.batch_id before after
unfolding append_audit detach_cursors delete_exporters delete_segment
Committed-Gone s at before after c =
    let b : Text = s.row.batch_id in
    rw c.result (record {
      segment_gone = find-delete_self (is_segment b) before.segments;
      exporters_gone = find-delete_self (of_segment b) before.segment_exporters;
      cursors_detached =
          find-update_away (detached b) (λ x. record x { batch_id = none }) before.cursors
            (λ x. refl);
      prune_record = record c.prune_record { id = suc before.audit_sequence };
      is_prune = c.is_prune;
      recorded = refl;
    })

-- The tombstone of segment `s` is on record.
abbrev pub HasTombstone : SegmentRecord → Tables → Type 0
HasTombstone s t =
    (at : Text) × (find (of_retirement s.row.batch_id) t.retirements ≡ some (tombstone s at))

Committed-HasTombstone :
    (s : SegmentRecord) (at : Text) (before after : Tables)
    → Committed s at before after
    → HasTombstone s after
unfolding append_audit detach_cursors delete_exporters delete_segment
Committed-HasTombstone s at before after c = (
  at,
  rw c.result (
      find-append_new (of_retirement s.row.batch_id) (tombstone s at) before.retirements
        c.fresh_tombstone (text_eq_refl s.row.batch_id)),
)

-- What a prune that returned `o` did.
abbrev pub Effect : SegmentRecord → Option PrunedSegment → World → World → Type 0
Effect s none w w' = (w'.database.tables ≡ w.database.tables) × (w'.unlinked ≡ w.unlinked)
Effect s (some p) w w' =
    Gone s.row.batch_id w.database.tables w'.database.tables
    × (w'.unlinked ≡ w.unlinked ++ s.row.batch_id ∷ [])
    × ((p.file_outcome ≢ removed) → HasTombstone s w'.database.tables)

clear_retirement-Gone :
    (b : Text) (before : Tables) (w : World)
    → Gone b before w.database.tables
    → Gone b before (clear_retirement b w).1.database.tables
unfolding clear_retirement clear_rows
clear_retirement-Gone b before w g =
    (transaction-ActionKeeps {P = Gone b before} (clear_rows b) (
        execute-ActionKeeps
          (λ t. (tt, record t { retirements = delete (λ r. text_eq r.batch_id b) t.retirements }))
          (λ t h. record {
            segment_gone = h.segment_gone;
            exporters_gone = h.exporters_gone;
            cursors_detached = h.cursors_detached;
            prune_record = h.prune_record;
            is_prune = h.is_prune;
            recorded = h.recorded;
          }))).kept
      w.database g

module _ (read : Text → Text → Outcome SpoolCode ParsedSegment)
    (remove : Text → Text → FileOutcome) where
  after_unlink-Effect :
      (s : SegmentRecord) (w w2 : World) (f : FileOutcome) (o : Option PrunedSegment)
      → Gone s.row.batch_id w.database.tables w2.database.tables
      → HasTombstone s w2.database.tables
      → w2.unlinked ≡ w.unlinked ++ s.row.batch_id ∷ []
      → (Job.◌>>◌
          (clear_if_removed read remove s.row.batch_id f)
          (Job.pure (some (pruned_segment s f)))
          w2).0
        ≡ ok o
      → Effect s o w
          (Job.◌>>◌
            (clear_if_removed read remove s.row.batch_id f)
            (Job.pure (some (pruned_segment s f)))
            w2).1
  unfolding clear_if_removed clear_retirement
  after_unlink-Effect s w w2 removed o g t u h =
      elim (Outcome-cases (clear_retirement s.row.batch_id w2).0) [
        | inr (x, e) ↦ absurd (ground (arith, e, h))
        | inl (v, e) ↦
            let k : some (pruned_segment s removed) ≡ o = ground (arith, e, h) in
            rw (← k, e)
              (
                clear_retirement-Gone s.row.batch_id w.database.tables w2 g,
                u,
                λ ne. absurd (ne refl),
              )
      ]
  after_unlink-Effect s w w2 orphaned o g t u h =
      let k : some (pruned_segment s orphaned) ≡ o = cc h in rw (← k) (g, u, λ ne. t)
  after_unlink-Effect s w w2 uncertain o g t u h =
      let k : some (pruned_segment s uncertain) ≡ o = cc h in rw (← k) (g, u, λ ne. t)

  remove_file-Effect :
      (s : SegmentRecord) (at : Text) (w w1 : World) (o : Option PrunedSegment)
      → Committed s at w.database.tables w1.database.tables
      → w1.unlinked ≡ w.unlinked
      → (remove_file read remove s w1).0 ≡ ok o
      → Effect s o w (remove_file read remove s w1).1
  unfolding remove_file unlink
  remove_file-Effect s at w w1 o c same h =
      after_unlink-Effect s w (record w1 { unlinked = w1.unlinked ++ s.row.batch_id ∷ [] })
        (remove s.row.day s.row.batch_id) o
        (Committed-Gone s at w.database.tables w1.database.tables c)
        (Committed-HasTombstone s at w.database.tables w1.database.tables c)
        (ap (λ l. l ++ s.row.batch_id ∷ []) same) h

  abbrev remove_if : SegmentRecord → Bool → Job (Option PrunedSegment)
  remove_if s c = if c then remove_file read remove s else Job.pure none

  -- After the transaction has ended with `r`.
  after_commit-Effect :
      (s : SegmentRecord) (at : Text) (r : Outcome StateCode (Unit {0})) (w w1 : World)
      (o : Option PrunedSegment)
      → ((u : Unit {0}) → r ≡ ok u → Committed s at w.database.tables w1.database.tables)
      → ((x : Exception StateCode) → r ≡ raised x → w1.database.tables ≡ w.database.tables)
      → w1.unlinked ≡ w.unlinked
      → (Job.continue (succeeded r) (remove_if s) w1).0 ≡ ok o
      → Effect s o w (Job.continue (succeeded r) (remove_if s) w1).1
  after_commit-Effect s at (ok u) w w1 o done undone same h =
      remove_file-Effect s at w w1 o (done u refl) same h
  after_commit-Effect s at (raised (fault c)) w w1 o done undone same h =
      let k : none ≡ o = cc h in rw (← k) (undone (fault c) refl, same)
  after_commit-Effect s at (raised sqlite_error) w w1 o done undone same h =
      let k : none ≡ o = cc h in rw (← k) (undone sqlite_error refl, same)
  after_commit-Effect s at (raised (time_error c)) w w1 o done undone same h = absurd (cc h)
  after_commit-Effect s at (raised overflow_error) w w1 o done undone same h = absurd (cc h)
  after_commit-Effect s at (raised unicode_error) w w1 o done undone same h = absurd (cc h)

  Committed-transaction :
      (s : SegmentRecord) (now : Datetime) (at : Text) (db : ControlDatabase)
      → (transaction (prune_rows s now at) db).0 ≡ ok tt
      → Committed s at db.tables (transaction (prune_rows s now at) db).1.tables
  Committed-transaction s now at db e =
      let (k, t) = transaction-ok (prune_rows s now at) db {a = tt} e in
      rw t (prune_rows-Committed s now at (begun db) k)

  prune_at-Effect :
      (s : SegmentRecord) (now : Datetime) (r : Outcome SpoolCode Text) (w : World)
      (o : Option PrunedSegment)
      → (prune_at read remove s now r w).0 ≡ ok o
      → Effect s o w (prune_at read remove s now r w).1
  unfolding prune_at prune_committed
  prune_at-Effect s now (raised e) w o h = let k : none ≡ o = cc h in rw (← k) (refl, refl)
  prune_at-Effect s now (ok at) w o h =
      after_commit-Effect s at (transaction (prune_rows s now at) w.database).0 w
        (record w { database = (transaction (prune_rows s now at) w.database).1 }) o
        (λ u e. Committed-transaction s now at w.database e)
        (λ x e. transaction-atomic (prune_rows s now at) w.database {e = x} e) refl h

  -- `_prune_segment` returns None only if no table has changed and no removal was asked for. When it
  -- returns a pruned segment, the segment's row and its delivery rows are gone, no cursor refers to
  -- it, one `retention_prune` row has been appended to the audit trail, the removal of its file has
  -- been asked for once, and unless that removal is known to be durable the tombstone is on record.
  pub prune_segment-Effect :
      (s : SegmentRecord) (now : Datetime) (w : World) (o : Option PrunedSegment)
      → (prune_segment read remove s now w).0 ≡ ok o
      → Effect s o w (prune_segment read remove s now w).1
  unfolding prune_segment
  prune_segment-Effect s now w o h = prune_at-Effect s now (format_timestamp (instant now)) w o h
