-- ===== src/Spooling/Job.antt =====
-- What the spooling modules run over: the control database, the calls that reach an exporter, and the
-- removals of segment files.
use milhouse_oss.Prelude.{Bool, List, Text, if◌then◌else◌}
use milhouse_oss.Python.Outcome.{
  Outcome, ok, raised, fault, time_error, sqlite_error, overflow_error, unicode_error,
}
use milhouse_oss.State.Errors.{StateCode}
use milhouse_oss.State.Database.{Action, ControlDatabase}

-- The codes of `SpoolError` that these modules use, and a `StateError` that is passed on.
pub data SpoolCode : Type 0 where
  ledger export retention verify identity read : SpoolCode
  batch_id_fault sequence_fault record_fault config_generation_fault scope_fault : SpoolCode
  target_fault privacy_fault exporters_fault count_fault digest_fault header_fault : SpoolCode
  frame_fault truncated_fault size_fault line_fault changed_fault not_found_fault : SpoolCode
  not_regular_fault unsafe_fault exists_fault write_fault replay_fault : SpoolCode
  state : StateCode → SpoolCode

pub record World : Type 0 where
  pub database : ControlDatabase
  -- Every call of `deliver`: the exporter and the segment.
  pub forwarded : List (Text × Text)
  -- Every segment whose file was asked to be removed.
  pub unlinked : List Text

abbrev pub Job : Type 0 → Type 0
Job A = World → Outcome SpoolCode A × World

module _ {A B : Type 0} where
  abbrev pub continue : Outcome SpoolCode A → (A → Job B) → Job B
  continue (ok a) f w = f a w
  continue (raised e) f w = (raised e, w)

  infixl 5 ◌>>=◌ ◌>>◌
  abbrev pub ◌>>=◌ : Job A → (A → Job B) → Job B
  ◌>>=◌ m f w = let (r, w') = m w in continue r f w'

  abbrev pub ◌>>◌ : Job A → Job B → Job B
  m >> k = m >>= λ _. k

module _ {A : Type 0} where
  abbrev pub pure : A → Job A
  pure a w = (ok a, w)

  abbrev pub lift : Outcome SpoolCode A → Job A
  lift r w = (r, w)

  -- `except (sqlite3.Error, StateError): failed = True` and then `_fail(code, ...)`.
  abbrev pub handled : SpoolCode → Outcome StateCode A → Outcome SpoolCode A
  handled c (ok a) = ok a
  handled c (raised (fault d)) = raised (fault c)
  handled c (raised sqlite_error) = raised (fault c)
  handled c (raised (time_error d)) = raised (time_error d)
  handled c (raised overflow_error) = raised overflow_error
  handled c (raised unicode_error) = raised unicode_error

  -- A `try` block on the database.
  abbrev pub on_database : SpoolCode → Action A → Job A
  on_database c m w = let (r, db) = m w.database in (handled c r, record w { database = db })

abbrev pub require : Bool → SpoolCode → Job (Unit {0})
require b c w = (if b then ok tt else raised (fault c), w)

-- How a barrier stands to a call: whether it is the commit lock of this database, and how the
-- acquisition ends. Its `StateError` is not handled by the callers.
pub record Barrier : Type 0 where
  pub bound : Bool
  pub entry : Outcome StateCode (Unit {0})

passed_on : Outcome StateCode (Unit {0}) → Outcome SpoolCode (Unit {0})
passed_on (ok u) = ok u
passed_on (raised (fault c)) = raised (fault (state c))
passed_on (raised (time_error c)) = raised (time_error c)
passed_on (raised sqlite_error) = raised sqlite_error
passed_on (raised overflow_error) = raised overflow_error
passed_on (raised unicode_error) = raised unicode_error

unfoldable pub hold : Barrier → Job (Unit {0})
unfolding passed_on
hold b = lift (passed_on b.entry)
