-- ===== src/Spooling/Verify.antt =====
-- src/milhouse/spooling/verify.py: the audit of every committed segment, which only reads.
pub mod Sound
use milhouse_oss.Prelude.{
  ◌≡◌, ◌↔◌, refl, inl, inr, Bool, Bool-cases, true, false, not, Option, none, some, List, [], ◌∷◌,
  arith, if◌then◌else◌, all, Text,
}
use milhouse_oss.Python.Outcome
use milhouse_oss.Python.Outcome.{
  Outcome, Outcome-cases, ok, raised, fault, time_error, sqlite_error, overflow_error,
  unicode_error,
}
use milhouse_oss.Spooling.Job.{SpoolCode, verify, Job, World, lift, ◌>>=◌}
use milhouse_oss.Spooling.Reader.{ParsedSegment}
use milhouse_oss.Spooling.Ledger.{SegmentRecord, list_segment_records}
use milhouse_oss.Spooling.Agreement.{agrees, all_delivered}

pub record SegmentVerification : Type 0 where
  pub batch_id : Text
  pub intact : Bool
  pub code : Option SpoolCode
  pub delivered : Bool

abbrev pub is_intact : SegmentVerification → Bool
is_intact v = v.intact

-- The properties of `VerifyReport`.
unfoldable pub report_intact : List SegmentVerification → Bool
report_intact vs = all is_intact vs

unfoldable pub compromised : List SegmentVerification → List SegmentVerification
compromised [] = []
compromised (v ∷ vs) = let rest = compromised vs in if v.intact then rest else v ∷ rest

abbrev code_of :
    SegmentRecord → Outcome SpoolCode ParsedSegment → Outcome SpoolCode (Option SpoolCode)
code_of s (ok p) = ok (if agrees p s.row.day s.row.batch_id s then none else some verify)
code_of s (raised (fault c)) = ok (some c)
code_of s (raised (time_error c)) = raised (time_error c)
code_of s (raised sqlite_error) = raised sqlite_error
code_of s (raised overflow_error) = raised overflow_error
code_of s (raised unicode_error) = raised unicode_error

abbrev is_clean : Option SpoolCode → Bool
is_clean none = true
is_clean (some c) = false

abbrev pub verification : SegmentRecord → Option SpoolCode → SegmentVerification
verification s code = record {
  batch_id = s.row.batch_id;
  intact = is_clean code;
  code = code;
  delivered = all_delivered s;
}

-- `read day batch_id` is `read_trusted_segment` of `pending/<day>/<batch_id>.jsonl`.
module _ (read : Text → Text → Outcome SpoolCode ParsedSegment) where
  -- `_verify_segment`
  unfoldable pub verify_segment : SegmentRecord → Outcome SpoolCode (Option SpoolCode)
  unfolding agrees
  verify_segment s = code_of s (read s.row.day s.row.batch_id)

  unfoldable pub verify_all : List SegmentRecord → Outcome SpoolCode (List SegmentVerification)
  unfolding verify_segment
  verify_all [] = ok []
  verify_all (s ∷ ss) =
      Outcome.◌>>=◌ (verify_segment s)
        λ code. Outcome.◌>>=◌ (verify_all ss) λ rest. ok (verification s code ∷ rest)

  -- `verify_spool`, of a spool root and an installation id that are the database's.
  unfoldable pub verify_spool : Job (List SegmentVerification)
  unfolding list_segment_records verify_all
  verify_spool = do records ← list_segment_records none; lift (verify_all records)

  -- The file was read, and agrees with its row.
  abbrev pub IsSound : SegmentRecord → Type 0
  IsSound s =
      (p : ParsedSegment) × (read s.row.day s.row.batch_id ≡ ok p)
      × (agrees p s.row.day s.row.batch_id s ≡ true)
