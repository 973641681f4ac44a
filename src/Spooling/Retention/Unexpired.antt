-- ===== src/Spooling/Retention/Unexpired.antt =====
-- A segment that holds a record whose expiry is to come outlives every apply pass.
use milhouse_oss.Prelude.{
  pos, ◌++◌, ◌≡◌, ◌≢◌, refl, ◌∙◌, inl, inr, Bool, Bool-cases, true, false, not, ◌&&◌, none, some,
  List, [], ◌∷◌, arith, all, if◌then◌else◌, Text, text_eq_iff, text_in,
}
use milhouse_oss.Python.Datetime.{Datetime, instant_le}
use milhouse_oss.Python.Value.{Value, instant, bool, str, int}
use milhouse_oss.Python.Outcome.{
  Outcome, ok, raised, fault, time_error, sqlite_error, overflow_error, unicode_error,
}
use milhouse_oss.Core.Clock.{format_timestamp}
use milhouse_oss.State.Errors.{StateCode}
use milhouse_oss.State.Schema.{AuditRecord, SegmentRow, Tables}
use milhouse_oss.State.Table.{find, find-delete_ne}
use milhouse_oss.State.Database
use milhouse_oss.State.Database.{Action, transaction, attempt}
use milhouse_oss.State.Audit.{
  validate_flag, validate_resource, validate_count, keyed_resource, append_audit, insert_audit,
  prune_row, record_retention_prune,
}
use milhouse_oss.Spooling.Job
use milhouse_oss.Spooling.Job.{SpoolCode, retention, Job, World, Barrier}
use milhouse_oss.Spooling.Keeps.{
  ActionKeeps, execute-ActionKeeps, bind-ActionKeeps, transaction-ActionKeeps, lift-ActionKeeps,
  attempt-ActionKeeps, list_segment_records-Keeps,
}
use milhouse_oss.Spooling.Segment.{SpoolFrame}
use milhouse_oss.Spooling.Export.Expiry.{is_past}
use milhouse_oss.Spooling.Reader.{ParsedSegment}
use milhouse_oss.Spooling.Ledger.{SegmentRecord, is_segment, insert_new, list_segment_records}
use milhouse_oss.Spooling.Agreement.{agrees, all_delivered}
use milhouse_oss.Spooling.Retention.{
  FileOutcome, pruned_segment, removed, orphaned, uncertain, latest, require_instant,
  clear_retirement, clear_rows, detach_cursors, delete_exporters, delete_segment, insert_tombstone,
  prune_audit, prune_rows, prune_committed, unlink, clear_if_removed, remove_file, prune_at,
  prune_segment, has_live, apply_parsed, apply_read, apply_one, apply_all, retention_apply,
}

latest-is_past :
    (now t : Datetime) (fs : List SpoolFrame)
    → instant_le (latest t fs) now ≡ (instant_le t now && all (is_past now) fs)
unfolding latest instant_le
latest-is_past now t [] = ground arith
latest-is_past now t (f ∷ fs) =
    ground (arith, latest-is_past now t fs, latest-is_past now f.expires_at fs)

-- The test of the maximum is the test of each frame.
has_live-all :
    (now : Datetime) (fs : List SpoolFrame) → all (is_past now) fs ≡ false → has_live now fs ≡ true
has_live-all now [] h = refl
has_live-all now (f ∷ fs) h = ground (arith, latest-is_past now f.expires_at fs)

text_in-append :
    (b i : Text) (l : List Text) → i ≢ b → text_in b l ≡ false → text_in b (l ++ i ∷ []) ≡ false
text_in-append b i [] ne h = ground (arith, text_eq_iff b i, ne)
text_in-append b i (x ∷ l) ne h = ground (arith, text_in-append b i l ne)

clash : {c : Bool} → c ≡ false → c ≡ true → ⊥
clash h k = cc

-- The segment has its row, and its file has not been asked to be removed.
abbrev pub Spared : Text → SegmentRow → World → Type 0
Spared b row w =
    (find (is_segment b) w.database.tables.segments ≡ some row) × (text_in b w.unlinked ≡ false)

module _ (b : Text) (row : SegmentRow) where
  abbrev HasRow : Tables → Type 0
  HasRow t = find (is_segment b) t.segments ≡ some row

  record Spares {A : Type 0} (m : Job A) : Type 0 where
    spared : (w : World) → Spared b row w → Spared b row (m w).1

  continue-Spares :
      {A B : Type 0} (r : Outcome SpoolCode A) (f : A → Job B) (w : World)
      → ((a : A) → Spares (f a))
      → Spared b row w
      → Spared b row (Job.continue r f w).1
  continue-Spares (ok a) f w rest h = (rest a).spared w h
  continue-Spares (raised e) f w rest h = h

  bind-Spares :
      {A B : Type 0} (m : Job A) (f : A → Job B)
      → Spares m
      → ((a : A) → Spares (f a))
      → Spares (Job.◌>>=◌ m f)
  bind-Spares m f first rest = record {
    spared = λ w h. continue-Spares (m w).0 f (m w).1 rest (first.spared w h);
  }

  lift-Spares : {A : Type 0} (r : Outcome SpoolCode A) → Spares (Job.lift r)
  lift-Spares r = record { spared = λ w h. h }

  change-ActionKeeps :
      (f : Tables → Tables)
      → ((t : Tables) → HasRow t → HasRow (f t))
      → ActionKeeps HasRow (Database.change f)
  change-ActionKeeps f keep = execute-ActionKeeps (λ t. (tt, f t)) keep

  then-ActionKeeps :
      {A B : Type 0} (m : Action A) (n : Action B)
      → ActionKeeps HasRow m
      → ActionKeeps HasRow n
      → ActionKeeps HasRow (Database.◌>>◌ m n)
  then-ActionKeeps m n p q = bind-ActionKeeps m (λ a. n) p (λ a. q)

  delete_segment-HasRow :
      (b' : Text) (t : Tables) → b' ≢ b → HasRow t → HasRow (delete_segment b' t)
  unfolding delete_segment
  delete_segment-HasRow b' t ne h =
      find-delete_ne (is_segment b') (is_segment b)
        (λ r k. ground (arith, text_eq_iff r.batch_id b', text_eq_iff r.batch_id b)) t.segments
      ∙ h

  insert_tombstone-ActionKeeps :
      (s : SegmentRecord) (at : Text) → ActionKeeps HasRow (insert_tombstone s at)
  unfolding insert_tombstone insert_new
  insert_tombstone-ActionKeeps s at =
      bind-ActionKeeps _ _ (execute-ActionKeeps _ (λ t h. ground (arith, h)))
        (λ c. lift-ActionKeeps _)

  insert_audit-ActionKeeps :
      (now : Value) (r : Text → AuditRecord) → ActionKeeps HasRow (insert_audit now r)
  unfolding insert_audit append_audit
  insert_audit-ActionKeeps now r =
      bind-ActionKeeps (attempt StateCode.audit (Database.lift (format_timestamp now))) _
        (attempt-ActionKeeps StateCode.audit (Database.lift (format_timestamp now))
          (lift-ActionKeeps (format_timestamp now)))
        (λ at.
          attempt-ActionKeeps StateCode.audit (Database.change (append_audit (r at)))
            (change-ActionKeeps (append_audit (r at)) (λ t h. h)))

  lift_then-ActionKeeps :
      {A B : Type 0} (r : Outcome StateCode A) (f : A → Action B)
      → ((a : A) → ActionKeeps HasRow (f a))
      → ActionKeeps HasRow (Database.◌>>=◌ (Database.lift r) f)
  lift_then-ActionKeeps r f rest = bind-ActionKeeps (Database.lift r) f (lift-ActionKeeps r) rest

  prune_audit-ActionKeeps :
      (s : SegmentRecord) (now : Datetime) → ActionKeeps HasRow (prune_audit s now)
  unfolding record_retention_prune
  prune_audit-ActionKeeps s now =
      lift_then-ActionKeeps (validate_flag (bool (not (all_delivered s)))) _ (λ u.
        lift_then-ActionKeeps (validate_resource (str s.row.batch_id)) _ (λ i.
          lift_then-ActionKeeps (validate_count (int (pos s.row.record_count))) _ (λ n.
            lift_then-ActionKeeps (validate_count (int (pos s.row.byte_size))) _ (λ m.
              lift_then-ActionKeeps (keyed_resource none i) _
                (λ r. insert_audit-ActionKeeps (instant now) (prune_row u r n m))))))

  prune_rows-ActionKeeps :
      (s : SegmentRecord) (now : Datetime) (at : Text)
      → s.row.batch_id ≢ b
      → ActionKeeps HasRow (prune_rows s now at)
  unfolding prune_rows detach_cursors delete_exporters
  prune_rows-ActionKeeps s now at ne =
      let i : Text = s.row.batch_id in
      then-ActionKeeps _ _
        (then-ActionKeeps _ _
          (then-ActionKeeps _ _
            (then-ActionKeeps _ _ (change-ActionKeeps (detach_cursors i) (λ t h. h))
              (change-ActionKeeps (delete_exporters i) (λ t h. h)))
            (change-ActionKeeps (delete_segment i) (λ t h. delete_segment-HasRow i t ne h)))
          (insert_tombstone-ActionKeeps s at))
        (prune_audit-ActionKeeps s now)

  prune_committed-Spares :
      (s : SegmentRecord) (now : Datetime) (at : Text)
      → s.row.batch_id ≢ b
      → Spares (prune_committed s now at)
  unfolding prune_committed
  prune_committed-Spares s now at ne = record {
    spared = λ w h. (
      (transaction-ActionKeeps (prune_rows s now at) (prune_rows-ActionKeeps s now at ne)).kept
          w.database h.0,
      h.1,
    );
  }

  clear_retirement-Spares : (i : Text) → Spares (clear_retirement i)
  unfolding clear_retirement clear_rows
  clear_retirement-Spares i = record {
    spared = λ w h. (
      (transaction-ActionKeeps (clear_rows i) (change-ActionKeeps _ (λ t k. k))).kept w.database
          h.0,
      h.1,
    );
  }

  -- What the pass does to another segment.
  module _ (read : Text → Text → Outcome SpoolCode ParsedSegment)
      (remove : Text → Text → FileOutcome) where
    unlink-Spares : (s : SegmentRecord) → s.row.batch_id ≢ b → Spares (unlink read remove s)
    unfolding unlink
    unlink-Spares s ne = record {
      spared = λ w h. (h.0, text_in-append b s.row.batch_id w.unlinked ne h.1);
    }

    clear_if_removed-Spares :
        (i : Text) (o : FileOutcome) → Spares (clear_if_removed read remove i o)
    unfolding clear_if_removed
    clear_if_removed-Spares i removed = clear_retirement-Spares i
    clear_if_removed-Spares i orphaned = lift-Spares (ok tt)
    clear_if_removed-Spares i uncertain = lift-Spares (ok tt)

    remove_file-Spares :
        (s : SegmentRecord) → s.row.batch_id ≢ b → Spares (remove_file read remove s)
    unfolding remove_file
    remove_file-Spares s ne = bind-Spares (unlink read remove s) _ (unlink-Spares s ne) (λ o.
        bind-Spares (clear_if_removed read remove s.row.batch_id o) _
          (clear_if_removed-Spares s.row.batch_id o)
          (λ u. lift-Spares (ok (some (pruned_segment s o)))))

    if-Spares :
        {A : Type 0} (c : Bool) (m n : Job A) → Spares m → Spares n → Spares (if c then m else n)
    if-Spares true m n p q = p
    if-Spares false m n p q = q

    prune_at-Spares :
        (s : SegmentRecord) (now : Datetime) (r : Outcome SpoolCode Text)
        → s.row.batch_id ≢ b
        → Spares (prune_at read remove s now r)
    unfolding prune_at
    prune_at-Spares s now (raised e) ne = lift-Spares _
    prune_at-Spares s now (ok at) ne =
        bind-Spares (prune_committed s now at) _ (prune_committed-Spares s now at ne)
          (λ c. if-Spares c _ _ (remove_file-Spares s ne) (lift-Spares _))

    -- Every reading of the segment's file that succeeds has a record still to expire.
    module _ (now : Datetime)
        (unexpired : (day : Text) (p : ParsedSegment)
          → read day b ≡ ok p
          → all (is_past now) p.frames ≡ false) where
      apply_parsed-Spares :
          (s : SegmentRecord) (p : ParsedSegment)
          → read s.row.day s.row.batch_id ≡ ok p
          → Spares (apply_parsed read remove s now p)
      unfolding apply_parsed prune_segment
      apply_parsed-Spares s p e = elim (Bool-cases (agrees p s.row.day s.row.batch_id s)) [
        | inr d ↦ rw d (lift-Spares _)
        | inl a ↦ elim (Bool-cases (has_live now p.frames)) [
          | inl h ↦ rw (a, h) (lift-Spares _)
          | inr h ↦
              rw (a, h)
                (bind-Spares (prune_segment read remove s now) _
                  (prune_at-Spares s now (format_timestamp (instant now)) (λ same.
                    clash h (has_live-all now p.frames (unexpired s.row.day p (rw (← same) e)))))
                  (λ o. lift-Spares _))
        ]
      ]

      apply_read-Spares :
          (s : SegmentRecord) (r : Outcome SpoolCode ParsedSegment)
          → read s.row.day s.row.batch_id ≡ r
          → Spares (apply_read read remove s now r)
      unfolding apply_read
      apply_read-Spares s (ok p) e = apply_parsed-Spares s p e
      apply_read-Spares s (raised (fault c)) e = lift-Spares _
      apply_read-Spares s (raised (time_error c)) e = lift-Spares _
      apply_read-Spares s (raised sqlite_error) e = lift-Spares _
      apply_read-Spares s (raised overflow_error) e = lift-Spares _
      apply_read-Spares s (raised unicode_error) e = lift-Spares _

      apply_all-Spares : (ss : List SegmentRecord) → Spares (apply_all read remove ss now)
      unfolding apply_all apply_one
      apply_all-Spares [] = lift-Spares _
      apply_all-Spares (s ∷ ss) =
          bind-Spares (apply_one read remove s now) _
            (apply_read-Spares s (read s.row.day s.row.batch_id) refl)
            (λ one.
              bind-Spares (apply_all read remove ss now) _ (apply_all-Spares ss)
                (λ rest. lift-Spares _))

      list_segment_records-Spares : Spares (list_segment_records none)
      unfolding list_segment_records
      list_segment_records-Spares = record {
        spared = λ w h. ((list_segment_records-Keeps {P = HasRow} none).kept w h.0, h.1);
      }

      retention_apply-Spares :
          (barrier : Barrier) (confirm : Bool)
          → Spares (retention_apply read remove barrier now confirm)
      unfolding retention_apply Job.hold
      retention_apply-Spares barrier confirm =
          bind-Spares (Job.require barrier.bound retention) _ (record { spared = λ w h. h })
            (λ u.
              bind-Spares (Job.lift (require_instant (instant now))) _
                (lift-Spares (require_instant (instant now)))
                (λ v.
                  bind-Spares (Job.require confirm retention) _ (record { spared = λ w h. h })
                    (λ x.
                      bind-Spares (Job.hold barrier) _ (record { spared = λ w h. h })
                        (λ y.
                          bind-Spares (list_segment_records none) _ list_segment_records-Spares
                            (λ ss. apply_all-Spares ss)))))

-- No record is lost before its expiry: if every reading of a segment's file that succeeds shows a
-- record that has still to expire at `now`, then after `retention_apply`, however it ends and
-- whatever it prunes, the segment's row is what it was and no removal of its file has been asked for
-- that was not asked for before.
pub unexpired_survives :
    (read : Text → Text → Outcome SpoolCode ParsedSegment) (remove : Text → Text → FileOutcome)
    (barrier : Barrier) (now : Datetime) (confirm : Bool) (b : Text) (row : SegmentRow) (w : World)
    → ((day : Text) (p : ParsedSegment) → read day b ≡ ok p → all (is_past now) p.frames ≡ false)
    → Spared b row w
    → Spared b row (retention_apply read remove barrier now confirm w).1
unexpired_survives read remove barrier now confirm b row w unexpired h =
    (retention_apply-Spares b row read remove now unexpired barrier confirm).spared w h
