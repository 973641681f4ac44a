-- ===== src/State/Database.antt =====
-- src/milhouse/state/database.py: `ControlDatabase`, its statements, and `transaction`.
pub mod Atomic
use milhouse_oss.Prelude.{
  ℕ, ◌^◌, ◌≡◌, refl, Bool, true, false, List, [], ◌∷◌, ltb, leb, not, ◌&&◌, any, Option, none, some,
  Text, if◌then◌else◌,
}
use milhouse_oss.Python.Outcome.{
  Exception, fault, sqlite_error, overflow_error, unicode_error, Outcome, ok, raised, normalize,
  normalize_sqlite,
}
use milhouse_oss.State.Errors.{StateCode}
use milhouse_oss.State.Schema.{Tables, empty_tables}

-- `faults` decides, statement by statement, which of the coming calls into SQLite raise
-- `sqlite3.Error`; when it is used up, none does.
pub record ControlDatabase : Type 0 where
  pub tables : Tables
  pub closed : Bool
  pub faults : List Bool

-- A call on an open database: how it ends, and the database that it leaves behind.
abbrev pub Action : Type 0 → Type 0
Action A = ControlDatabase → Outcome StateCode A × ControlDatabase

unfoldable pub next_fault : List Bool → Bool
next_fault [] = false
next_fault (b ∷ l) = b

unfoldable pub later_faults : List Bool → List Bool
later_faults [] = []
later_faults (b ∷ l) = l

module _ {A B : Type 0} where
  abbrev pub continue : Outcome StateCode A → (A → Action B) → Action B
  continue (ok a) f db = f a db
  continue (raised e) f db = (raised e, db)

  infixl 5 ◌>>=◌ ◌>>◌
  abbrev pub ◌>>=◌ : Action A → (A → Action B) → Action B
  ◌>>=◌ m f db = let (r, db') = m db in continue r f db'

  abbrev pub ◌>>◌ : Action A → Action B → Action B
  m >> k = m >>= λ _. k

module _ {A : Type 0} where
  abbrev pub pure : A → Action A
  pure a db = (ok a, db)

  abbrev pub lift : Outcome StateCode A → Action A
  lift r db = (r, db)

  -- One `connection.execute`.
  unfoldable pub execute : (Tables → A × Tables) → Action A
  unfolding next_fault later_faults
  execute statement db =
      if next_fault db.faults
      then (raised sqlite_error, record db { faults = later_faults db.faults })
      else (let (a, t) = statement db.tables in
          (ok a, record db { tables = t; faults = later_faults db.faults }))

  abbrev pub select : (Tables → A) → Action A
  select query = execute (λ t. (query t, t))

-- A statement that returns no row.
abbrev pub change : (Tables → Tables) → Action (Unit {0})
change f = execute (λ t. (tt, f t))

-- SQLite integers have 64 bits with a sign; a larger parameter raises before the statement runs.
unfoldable pub bind_integer : ℕ → Action (Unit {0})
bind_integer n db = (if ltb n (2 ^ 63) then ok tt else raised overflow_error, db)

-- A text is encoded as UTF-8 when it is bound; a lone surrogate raises before the statement runs.
abbrev is_surrogate : ℕ → Bool
is_surrogate c = leb 0xd800 c && leb c 0xdfff

abbrev pub is_encodable : Text → Bool
is_encodable s = not (any is_surrogate s)

unfoldable pub bind_text : Text → Action (Unit {0})
bind_text s db = (if is_encodable s then ok tt else raised unicode_error, db)

-- NULL, or a text.
abbrev pub bind_optional : Option Text → Action (Unit {0})
bind_optional none = pure tt
bind_optional (some s) = bind_text s

abbrev pub require : Bool → StateCode → Action (Unit {0})
require b c db = (if b then ok tt else raised (fault c), db)

-- The property `connection`.
unfoldable pub connection : {A : Type 0} → Action A → Action A
connection m db = if db.closed then (raised (fault StateCode.closed), db) else m db

-- `ROLLBACK` to the tables at `BEGIN`; an error of the statement itself is passed over.
unfoldable pub rollback : Tables → ControlDatabase → ControlDatabase
unfolding later_faults
rollback before db = record db { tables = before; faults = later_faults db.faults }

unfoldable pub commit : {A : Type 0} → Tables → A → Action A
unfolding rollback next_fault
commit before a db =
    if next_fault db.faults
    then (
      raised (fault StateCode.txn),
      rollback before (record db { faults = later_faults db.faults }),
    )
    else (ok a, record db { faults = later_faults db.faults })

unfoldable pub finish : {A : Type 0} → Tables → Outcome StateCode A → Action A
unfolding commit rollback
finish before (ok a) db = commit before a db
finish before (raised e) db = (raised e, rollback before db)

-- `BEGIN IMMEDIATE`, the body, and `COMMIT`; or `ROLLBACK` and the body's exception.
unfoldable pub transaction : {A : Type 0} → Action A → Action A
unfolding connection finish next_fault later_faults
transaction body = connection λ db.
    if next_fault db.faults
    then (raised (fault StateCode.txn), record db { faults = later_faults db.faults })
    else (let (r, db') = body (record db { faults = later_faults db.faults }) in
        finish db.tables r db')

-- `try: ... except (sqlite3.Error, OverflowError, TimeError)`, and the fixed code.
abbrev pub attempt : {A : Type 0} → StateCode → Action A → Action A
attempt c m db = let (r, db') = m db in (normalize c r, db')

-- `try: ... except sqlite3.Error`, and the fixed code.
abbrev pub attempt_sqlite : {A : Type 0} → StateCode → Action A → Action A
attempt_sqlite c m db = let (r, db') = m db in (normalize_sqlite c r, db')

-- An open database whose statements all succeed.
abbrev pub healthy : Tables → ControlDatabase
healthy t = record { tables = t; closed = false; faults = [] }

abbrev pub fresh : ControlDatabase
fresh = healthy empty_tables
