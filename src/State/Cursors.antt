-- ===== src/State/Cursors.antt =====
-- src/milhouse/state/cursors.py: ingestion cursors, advanced against committed segments by
-- compare-and-set on a revision.
pub mod Advance
pub mod Cas
use milhouse_oss.Prelude.{ℕ, ◌+◌, ◌≡◌, Bool, true, false, Option, none, some, ◌==◌, Text, text_eq}
use milhouse_oss.Python.Value.{Value}
use milhouse_oss.Python.Outcome.{ok}
use milhouse_oss.Core.Clock.{format_timestamp}
use milhouse_oss.State.Errors.{StateCode}
use milhouse_oss.State.Schema.{SegmentRow, SourceCursor, Tables}
use milhouse_oss.State.Table.{find, upsert}
use milhouse_oss.State.Validate.{validate_identifier, validate_at_least}
use milhouse_oss.State.Database.{
  Action, ◌>>=◌, ◌>>◌, pure, lift, select, change, execute, bind_integer, bind_text, require,
  connection, transaction, attempt, attempt_sqlite,
}

abbrev pub is_segment : Text → SegmentRow → Bool
is_segment batch_id r = text_eq r.batch_id batch_id

abbrev pub is_cursor : Text → SourceCursor → Bool
is_cursor source r = text_eq r.source source

abbrev pub found {ℓ} : {A : Type ℓ} → Option A → Bool
found none = false
found (some a) = true

-- `SELECT 1 FROM _segments WHERE batch_id`
unfoldable pub is_committed : Text → Tables → Bool
is_committed batch_id t = found (find (is_segment batch_id) t.segments)

unfoldable pub stored_cursor : Text → Tables → Option SourceCursor
stored_cursor source t = find (is_cursor source) t.cursors

-- The revision of a source that has never advanced is 0.
abbrev pub cursor_revision : Option SourceCursor → ℕ
cursor_revision none = 0
cursor_revision (some r) = r.revision

unfoldable pub put_cursor : SourceCursor → Tables → Tables
put_cursor c t = record t { cursors = upsert (is_cursor c.source) c t.cursors }

unfoldable pub read_cursor : Value → Action (Option SourceCursor)
unfolding validate_identifier connection execute bind_text
read_cursor source_value = do
  source ← lift (validate_identifier source_value StateCode.cursor_source)
  attempt_sqlite StateCode.cursor (connection (bind_text source >> select (stored_cursor source)))

-- The body of the transaction of `advance_cursor`.
unfoldable pub advance_rows : Text → Text → Text → ℕ → Text → Action SourceCursor
unfolding execute bind_integer bind_text put_cursor
advance_rows source position batch_id expected updated_at = do
  bind_text batch_id
  committed ← select (is_committed batch_id)
  require committed StateCode.cursor_segment
  bind_text source
  existing ← select (stored_cursor source)
  require (cursor_revision existing == expected) StateCode.cursor_conflict
  let revision : ℕ = cursor_revision existing + 1
  bind_text position
  bind_integer revision
  let c : SourceCursor = record {
    source = source;
    position = position;
    batch_id = some batch_id;
    revision = revision;
    updated_at = updated_at;
  }
  change (put_cursor c)
  pure c

-- The `try` block of `advance_cursor`, over tested arguments.
unfoldable pub advance_valid : Text → Text → Text → Value → ℕ → Action SourceCursor
unfolding advance_rows transaction
advance_valid source position batch_id now expected = attempt StateCode.cursor (do
  updated_at ← lift (format_timestamp now)
  transaction (advance_rows source position batch_id expected updated_at))

unfoldable pub advance_cursor : Value → Value → Value → Value → Value → Action SourceCursor
unfolding advance_valid validate_identifier validate_at_least
advance_cursor source_value position_value batch_value now expected_value = do
  source ← lift (validate_identifier source_value StateCode.cursor_source)
  position ← lift (validate_identifier position_value StateCode.cursor_position)
  batch_id ← lift (validate_identifier batch_value StateCode.cursor_segment)
  expected ← lift (validate_at_least 0 expected_value StateCode.cursor_revision)
  advance_valid source position batch_id now expected
