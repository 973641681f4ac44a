-- ===== src/State/Cursors/Advance.antt =====
-- `advance_cursor` against its contract.
use milhouse_oss.Prelude.{ℕ, ◌+◌, ◌∙◌, ◌≡◌, inl, inr, true, some, arith, pos, Text}
use milhouse_oss.Python.Value.{Value, str, int}
use milhouse_oss.Python.Outcome.{Outcome-cases, ok}
use milhouse_oss.Core.Clock.{format_timestamp}
use milhouse_oss.State.Errors.{StateCode}
use milhouse_oss.State.Schema.{SourceCursor, Tables}
use milhouse_oss.State.Validate.{
  validate_identifier, validate_at_least, validate_identifier-str, validate_at_least-int,
}
use milhouse_oss.State.Database.{ControlDatabase, is_encodable}
use milhouse_oss.State.Database.Atomic.{begun, transaction-ok, lift-bind-ok, IsAtomic, atomic_rules}
use milhouse_oss.State.Cursors.{
  is_committed, stored_cursor, cursor_revision, put_cursor, advance_rows, advance_valid,
  advance_cursor,
}

-- What an advance has done: the batch is committed, the revision was the expected one, and the row
-- is stored with the next.
pub record Advanced (before after : Tables) (expected : ℕ) (batch_id : Text) (c : SourceCursor)
    : Type 0 where
  pub committed : is_committed batch_id before ≡ true
  pub referenced : c.batch_id ≡ some batch_id
  pub observed : cursor_revision (stored_cursor c.source before) ≡ expected
  pub next : c.revision ≡ expected + 1
  pub encoded : is_encodable c.source ≡ true
  pub stored : after ≡ put_cursor c before

advance_rows-Advanced :
    (source position batch_id : Text) (expected : ℕ) (updated_at : Text) (db : ControlDatabase)
    {c : SourceCursor}
    → let m = advance_rows source position batch_id expected updated_at in
      (m db).0 ≡ ok c
      → (c.source ≡ source)
        × (c.position ≡ position)
        × Advanced db.tables (m db).1.tables expected batch_id c
unfolding advance_rows
advance_rows-Advanced source position batch_id expected updated_at db {c} h = ground arith

advance_valid-Advanced :
    (source position batch_id : Text) (now : Value) (expected : ℕ) (db : ControlDatabase)
    {c : SourceCursor}
    → let m = advance_valid source position batch_id now expected in
      (m db).0 ≡ ok c
      → (c.source ≡ source)
        × (c.position ≡ position)
        × Advanced db.tables (m db).1.tables expected batch_id c
unfolding advance_valid
advance_valid-Advanced source position batch_id now expected db {c} h =
    elim (Outcome-cases (format_timestamp {C = StateCode} now)) [
      | inr (e, es) ↦ ground arith
      | inl (a, es) ↦
          let m = advance_rows source position batch_id expected a in
          ground (
            arith,
            transaction-ok m db {a = c},
            advance_rows-Advanced source position batch_id expected a (begun db) {c = c},
          )
    ]

module _ (source position batch now expected : Value) where
  pub advance_cursor_inv :
      (db : ControlDatabase) {c : SourceCursor}
      → (advance_cursor source position batch now expected db).0 ≡ ok c
      → (n : ℕ) × (batch_id : Text) × (source ≡ str c.source)
        × (position ≡ str c.position)
        × (batch ≡ str batch_id)
        × (expected ≡ int (pos n))
        × (validate_identifier source StateCode.cursor_source ≡ ok c.source)
        × Advanced db.tables
            (advance_cursor source position batch now expected db).1.tables
            n
            batch_id
            c
  unfolding advance_cursor
  advance_cursor_inv db {c} h =
      let (s, es, e1, h1) =
        lift-bind-ok (validate_identifier source StateCode.cursor_source) _ db h in
      let (p, ep, e2, h2) =
        lift-bind-ok (validate_identifier position StateCode.cursor_position) _ db h1 in
      let (b, eb, e3, h3) =
        lift-bind-ok (validate_identifier batch StateCode.cursor_segment) _ db h2 in
      let (n, en, e4, h4) =
        lift-bind-ok (validate_at_least 0 expected StateCode.cursor_revision) _ db h3 in
      let fs = validate_identifier-str source StateCode.cursor_source es in
      let fp = validate_identifier-str position StateCode.cursor_position ep in
      let (gs, gp, g) = advance_valid-Advanced s p b now n db h4 in
      (
        n,
        b,
        ground arith,
        ground arith,
        validate_identifier-str batch StateCode.cursor_segment eb,
        validate_at_least-int 0 expected StateCode.cursor_revision en,
        ground arith,
        ground (arith, e1 ∙ e2 ∙ e3 ∙ e4),
      )

  pub advance_cursor-IsAtomic : IsAtomic (advance_cursor source position batch now expected)
  unfolding advance_cursor advance_valid
  advance_cursor-IsAtomic = search atomic_rules depth 12
