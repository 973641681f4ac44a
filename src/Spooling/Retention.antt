-- ===== src/Spooling/Retention.antt =====
-- src/milhouse/spooling/retention.py: which segments have expired, and their removal.
pub mod Preview
pub mod Unexpired
pub mod Effect
use milhouse_oss.Prelude.{
  ℕ, ◌+◌, Bool, true, false, not, ◌&&◌, Option, none, some, List, [], ◌∷◌, ◌++◌, ◌⊎◌, inl, inr,
  if◌then◌else◌, pos, Text, codes, text_eq,
}
use milhouse_oss.Python.Datetime.{Datetime, instant_le}
use milhouse_oss.Python.Value.{Value, instant, int, str, bool}
use milhouse_oss.Python.Outcome
use milhouse_oss.Python.Outcome.{
  Outcome, ok, raised, fault, time_error, sqlite_error, overflow_error, unicode_error,
}
use milhouse_oss.Core.Clock.{format_timestamp}
use milhouse_oss.State.Errors.{StateCode}
use milhouse_oss.State.Schema.{SourceCursor, Retirement, Tables}
use milhouse_oss.State.Table.{find, update, delete}
use milhouse_oss.State.Database
use milhouse_oss.State.Database.{Action, change, transaction}
use milhouse_oss.State.Audit.{record_retention_prune}
use milhouse_oss.Spooling.Job.{
  SpoolCode, retention, verify, Job, World, pure, lift, ◌>>=◌, ◌>>◌, require, Barrier, hold,
}
use milhouse_oss.Spooling.Segment.{SpoolFrame}
use milhouse_oss.Spooling.Reader.{ParsedSegment}
use milhouse_oss.Spooling.Ledger.{
  SegmentRecord, is_segment, of_segment, has, insert_new, list_segment_records,
}
use milhouse_oss.Spooling.Agreement.{agrees, all_delivered}
use milhouse_oss.Spooling.Export.{earliest}

pub data Status : Type 0 where
  fully_expired mixed live unreadable disagreeing : Status

pub record SegmentRetention : Type 0 where
  pub batch_id : Text
  pub status : Status
  pub record_count : ℕ
  pub byte_size : ℕ
  pub delivered : Bool
  pub code : Option SpoolCode

pub data FileOutcome : Type 0 where
  removed orphaned uncertain : FileOutcome

pub record PrunedSegment : Type 0 where
  pub batch_id : Text
  pub record_count : ℕ
  pub byte_size : ℕ
  pub delivered : Bool
  pub file_outcome : FileOutcome

pub record RetentionResult : Type 0 where
  pub pruned : List PrunedSegment
  pub skipped : List SegmentRetention

-- `max(expiries)`, from a first one.
unfoldable pub latest : Datetime → List SpoolFrame → Datetime
latest t [] = t
latest t (f ∷ fs) = latest (if instant_le t f.expires_at then f.expires_at else t) fs

-- What the expiries of a readable segment make of it.
unfoldable pub expiry_status : Datetime → List SpoolFrame → Status
unfolding latest earliest
expiry_status now [] = live
expiry_status now (f ∷ fs) =
    if instant_le (latest f.expires_at fs) now
    then fully_expired
    else if instant_le (earliest f.expires_at fs) now
    then mixed
    else live

abbrev pub retained : SegmentRecord → Status → Option SpoolCode → SegmentRetention
retained s status code = record {
  batch_id = s.row.batch_id;
  status = status;
  record_count = s.row.record_count;
  byte_size = s.row.byte_size;
  delivered = all_delivered s;
  code = code;
}

-- `_require_now`
unfoldable pub require_instant : Value → Outcome SpoolCode (Unit {0})
require_instant now =
    Outcome.normalize retention (Outcome.◌>>◌ (format_timestamp {C = SpoolCode} now) (ok tt))

-- `DELETE FROM _retirements`
unfoldable pub clear_rows : Text → Action (Unit {0})
clear_rows batch_id =
    change λ t. record t { retirements = delete (λ r. text_eq r.batch_id batch_id) t.retirements }

-- `except (sqlite3.Error, StateError): return`
abbrev best_effort : Outcome StateCode (Unit {0}) → Outcome SpoolCode (Unit {0})
best_effort (ok u) = ok u
best_effort (raised (fault c)) = ok tt
best_effort (raised sqlite_error) = ok tt
best_effort (raised (time_error c)) = raised (time_error c)
best_effort (raised overflow_error) = raised overflow_error
best_effort (raised unicode_error) = raised unicode_error

-- `_clear_retirement`
unfoldable pub clear_retirement : Text → Job (Unit {0})
unfolding transaction clear_rows
clear_retirement batch_id w =
    let (r, db) = transaction (clear_rows batch_id) w.database in
    (best_effort r, record w { database = db })

abbrev pub detached : Text → SourceCursor → Bool
detached batch_id c = elim c.batch_id [ none ↦ false | some b ↦ text_eq b batch_id ]

-- `UPDATE _cursors SET batch_id = NULL`
unfoldable pub detach_cursors : Text → Tables → Tables
unfolding update
detach_cursors batch_id t = record t {
  cursors = update (detached batch_id) (λ c. record c { batch_id = none }) t.cursors;
}

-- `DELETE FROM _segment_exporters`
unfoldable pub delete_exporters : Text → Tables → Tables
unfolding delete
delete_exporters batch_id t = record t {
  segment_exporters = delete (of_segment batch_id) t.segment_exporters;
}

-- `DELETE FROM _segments`
unfoldable pub delete_segment : Text → Tables → Tables
unfolding delete
delete_segment batch_id t = record t { segments = delete (is_segment batch_id) t.segments }

abbrev pub tombstone : SegmentRecord → Text → Retirement
tombstone s retired_at = record {
  batch_id = s.row.batch_id;
  day = s.row.day;
  file_sha256 = s.row.file_sha256;
  retired_at = retired_at;
}

-- `INSERT INTO _retirements`
unfoldable pub insert_tombstone : SegmentRecord → Text → Action (Unit {0})
unfolding insert_new
insert_tombstone s retired_at =
    insert_new (λ t. has (find (λ r. text_eq r.batch_id s.row.batch_id) t.retirements))
      (λ t. record t { retirements = t.retirements ++ tombstone s retired_at ∷ [] })

abbrev pub prune_audit : SegmentRecord → Datetime → Action (Unit {0})
prune_audit s now =
    record_retention_prune (instant now) (str s.row.batch_id) (int (pos s.row.record_count))
      (int (pos s.row.byte_size)) (bool (not (all_delivered s))) none

-- The body of the transaction of `_prune_segment`.
unfoldable pub prune_rows : SegmentRecord → Datetime → Text → Action (Unit {0})
unfolding detach_cursors delete_exporters delete_segment insert_tombstone record_retention_prune
prune_rows s now retired_at =
    Database.◌>>◌
      (Database.◌>>◌
        (Database.◌>>◌
          (Database.◌>>◌ (change (detach_cursors s.row.batch_id))
            (change (delete_exporters s.row.batch_id)))
          (change (delete_segment s.row.batch_id)))
        (insert_tombstone s retired_at))
      (prune_audit s now)

-- `except (sqlite3.Error, StateError): failed = True`
abbrev pub succeeded : Outcome StateCode (Unit {0}) → Outcome SpoolCode Bool
succeeded (ok u) = ok true
succeeded (raised (fault c)) = ok false
succeeded (raised sqlite_error) = ok false
succeeded (raised (time_error c)) = raised (time_error c)
succeeded (raised overflow_error) = raised overflow_error
succeeded (raised unicode_error) = raised unicode_error

unfoldable pub prune_committed : SegmentRecord → Datetime → Text → Job Bool
unfolding transaction prune_rows
prune_committed s now retired_at w =
    let (r, db) = transaction (prune_rows s now retired_at) w.database in
    (succeeded r, record w { database = db })

abbrev pub pruned_segment : SegmentRecord → FileOutcome → PrunedSegment
pruned_segment s outcome = record {
  batch_id = s.row.batch_id;
  record_count = s.row.record_count;
  byte_size = s.row.byte_size;
  delivered = all_delivered s;
  file_outcome = outcome;
}

abbrev pub judged : SegmentRecord → Datetime → ParsedSegment → SegmentRetention
judged s now p =
    if not (agrees p s.row.day s.row.batch_id s)
    then retained s disagreeing (some verify)
    else retained s (expiry_status now p.frames) none

abbrev pub classified :
    SegmentRecord → Datetime → Outcome SpoolCode ParsedSegment → Outcome SpoolCode SegmentRetention
classified s now (ok p) = ok (judged s now p)
classified s now (raised (fault c)) = ok (retained s unreadable (some c))
classified s now (raised (time_error c)) = raised (time_error c)
classified s now (raised sqlite_error) = raised sqlite_error
classified s now (raised overflow_error) = raised overflow_error
classified s now (raised unicode_error) = raised unicode_error

abbrev pub skip_unpruned : SegmentRecord → Option PrunedSegment → PrunedSegment ⊎ SegmentRetention
skip_unpruned s none = inr (retained s fully_expired (some retention))
skip_unpruned s (some p) = inl p

-- Live where every expiry is to come, or there is none.
abbrev pub live_or_mixed : Datetime → List SpoolFrame → Status
live_or_mixed now [] = live
live_or_mixed now (f ∷ fs) = if instant_le (earliest f.expires_at fs) now then mixed else live

abbrev pub has_live : Datetime → List SpoolFrame → Bool
has_live now [] = true
has_live now (f ∷ fs) = not (instant_le (latest f.expires_at fs) now)

-- `read day batch_id` is `read_trusted_segment` of `pending/<day>/<batch_id>.jsonl`, `remove` how
-- `remove_regular_file_no_follow` of it ends.
module _ (read : Text → Text → Outcome SpoolCode ParsedSegment)
    (remove : Text → Text → FileOutcome) where
  unfoldable pub unlink : SegmentRecord → Job FileOutcome
  unlink s w = (
    ok (remove s.row.day s.row.batch_id),
    record w { unlinked = w.unlinked ++ s.row.batch_id ∷ [] },
  )

  unfoldable pub clear_if_removed : Text → FileOutcome → Job (Unit {0})
  unfolding clear_retirement
  clear_if_removed batch_id removed = clear_retirement batch_id
  clear_if_removed batch_id _ = pure tt

  -- After the transaction.
  unfoldable pub remove_file : SegmentRecord → Job (Option PrunedSegment)
  unfolding unlink clear_if_removed
  remove_file s = do
    outcome ← unlink s
    clear_if_removed s.row.batch_id outcome
    pure (some (pruned_segment s outcome))

  -- At the text of the instant, or not at all.
  unfoldable pub prune_at :
      SegmentRecord → Datetime → Outcome SpoolCode Text → Job (Option PrunedSegment)
  unfolding prune_committed remove_file
  prune_at s now (raised e) = pure none
  prune_at s now (ok retired_at) = do
    committed ← prune_committed s now retired_at
    if committed then remove_file s else pure none

  -- `_prune_segment`
  unfoldable pub prune_segment : SegmentRecord → Datetime → Job (Option PrunedSegment)
  unfolding prune_at
  prune_segment s now = prune_at s now (format_timestamp {C = SpoolCode} (instant now))

  -- `_classify`
  unfoldable pub classify : SegmentRecord → Datetime → Outcome SpoolCode SegmentRetention
  unfolding agrees expiry_status
  classify s now = classified s now (read s.row.day s.row.batch_id)

  unfoldable pub classify_all :
      List SegmentRecord → Datetime → Outcome SpoolCode (List SegmentRetention)
  unfolding classify
  classify_all [] now = ok []
  classify_all (s ∷ ss) now =
      Outcome.◌>>=◌ (classify s now) λ c. Outcome.◌>>=◌ (classify_all ss now) λ rest. ok (c ∷ rest)

  -- `retention_preview`, of a spool root and an installation id that are the database's.
  unfoldable pub retention_preview : Datetime → Job (List SegmentRetention)
  unfolding require_instant list_segment_records classify_all
  retention_preview now = do
    lift (require_instant (instant now))
    records ← list_segment_records none
    lift (classify_all records now)

  -- Of a segment that has been read.
  unfoldable pub apply_parsed :
      SegmentRecord → Datetime → ParsedSegment → Job (PrunedSegment ⊎ SegmentRetention)
  unfolding agrees latest earliest prune_segment
  apply_parsed s now p =
      if not (agrees p s.row.day s.row.batch_id s)
      then pure (inr (retained s disagreeing (some verify)))
      else if has_live now p.frames
      then pure (inr (retained s (live_or_mixed now p.frames) none))
      else (prune_segment s now >>= λ o. pure (skip_unpruned s o))

  unfoldable pub apply_read :
      SegmentRecord
      → Datetime
      → Outcome SpoolCode ParsedSegment
      → Job (PrunedSegment ⊎ SegmentRetention)
  unfolding apply_parsed
  apply_read s now (ok p) = apply_parsed s now p
  apply_read s now (raised (fault c)) = pure (inr (retained s unreadable (some c)))
  apply_read s now (raised (time_error c)) = lift (raised (time_error c))
  apply_read s now (raised sqlite_error) = lift (raised sqlite_error)
  apply_read s now (raised overflow_error) = lift (raised overflow_error)
  apply_read s now (raised unicode_error) = lift (raised unicode_error)

  -- `_apply_one`: what was pruned, or why nothing was.
  unfoldable pub apply_one : SegmentRecord → Datetime → Job (PrunedSegment ⊎ SegmentRetention)
  unfolding apply_read
  apply_one s now = apply_read s now (read s.row.day s.row.batch_id)

  abbrev collected : PrunedSegment ⊎ SegmentRetention → RetentionResult → RetentionResult
  collected (inl p) r = record r { pruned = p ∷ r.pruned }
  collected (inr c) r = record r { skipped = c ∷ r.skipped }

  unfoldable pub apply_all : List SegmentRecord → Datetime → Job RetentionResult
  unfolding apply_one
  apply_all [] now = pure (record { pruned = []; skipped = [] })
  apply_all (s ∷ ss) now = do
    one ← apply_one s now
    rest ← apply_all ss now
    pure (collected one rest)

  -- `retention_apply`, of a spool root and an installation id that are the database's.
  unfoldable pub retention_apply : Barrier → Datetime → Bool → Job RetentionResult
  unfolding require_instant hold list_segment_records apply_all
  retention_apply barrier now confirm = do
    require barrier.bound retention
    lift (require_instant (instant now))
    require confirm retention
    hold barrier
    records ← list_segment_records none
    apply_all records now
