-- ===== src/Spooling/Verify/Sound.antt =====
-- The verdict of the audit.
use milhouse_oss.Prelude.{
  ◌≡◌, ◌↔◌, refl, ap, inl, inr, Bool, Bool-cases, true, false, ◌&&◌, Option, none, some, List, [],
  ◌∷◌, arith, All, map, Text,
}
use milhouse_oss.Python.Outcome.{
  Outcome, Outcome-cases, ok, raised, fault, time_error, sqlite_error, overflow_error,
  unicode_error, bind-ok,
}
use milhouse_oss.State.Schema.{Tables}
use milhouse_oss.Spooling.Job
use milhouse_oss.Spooling.Job.{SpoolCode, Job, World}
use milhouse_oss.Spooling.Keeps.{Keeps, lift-Keeps, bind-Keeps, list_segment_records-Keeps}
use milhouse_oss.Spooling.Reader.{ParsedSegment}
use milhouse_oss.Spooling.Ledger.{SegmentRecord, list_segment_records}
use milhouse_oss.Spooling.Agreement.{agrees}
use milhouse_oss.Spooling.Verify.{
  SegmentVerification, report_intact, code_of, is_clean, verification, verify_segment, verify_all,
  verify_spool, IsSound,
}

abbrev pub batch_of : SegmentRecord → Text
batch_of s = s.row.batch_id

and_iff :
    {P Q : Type 0} (b c : Bool) → (b ≡ true) ↔ P → (c ≡ true) ↔ Q → ((b && c) ≡ true) ↔ (P × Q)
and_iff true c f g = (λ h. (f.0 refl, g.0 h), λ (p, q). g.1 q)
and_iff false c f g = (λ h. absurd (cc h), λ (p, q). f.1 p)

module _ (read : Text → Text → Outcome SpoolCode ParsedSegment) where
  code-IsSound :
      (s : SegmentRecord) (o : Outcome SpoolCode ParsedSegment) (code : Option SpoolCode)
      → read s.row.day s.row.batch_id ≡ o
      → code_of s o ≡ ok code
      → (is_clean code ≡ true) ↔ IsSound read s
  code-IsSound s (ok p) code e h = elim (Bool-cases (agrees p s.row.day s.row.batch_id s)) [
    | inl a ↦ let k : none ≡ code = ground (arith, a, h) in (λ x. (p, e, a), λ x. rw (← k) refl)
    | inr a ↦
        let k : some SpoolCode.verify ≡ code = ground (arith, a, h) in
        (
          λ x. absurd (ground (arith, x, k)),
          λ (q, f, b).
              let same : p ≡ q = cc (e, f) in
              absurd (ground (arith, ap (λ y. agrees y s.row.day s.row.batch_id s) same, a, b)),
        )
  ]
  code-IsSound s (raised (fault c)) code e h =
      let k : some c ≡ code = cc h in
      (λ x. absurd (ground (arith, x, k)), λ (q, f, b). absurd (cc (e, f)))
  code-IsSound s (raised (time_error c)) code e h = absurd (cc h)
  code-IsSound s (raised sqlite_error) code e h = absurd (cc h)
  code-IsSound s (raised overflow_error) code e h = absurd (cc h)
  code-IsSound s (raised unicode_error) code e h = absurd (cc h)

  -- One result for each record, in order; and the verdict.
  abbrev pub Audits : List SegmentRecord → List SegmentVerification → Type 0
  Audits ss vs =
      (map SegmentVerification.batch_id vs ≡ map batch_of ss)
      × ((report_intact vs ≡ true) ↔ All (IsSound read) ss)

  verify_all-Audits :
      (ss : List SegmentRecord) (vs : List SegmentVerification)
      → verify_all read ss ≡ ok vs
      → Audits ss vs
  unfolding verify_all verify_segment report_intact
  verify_all-Audits [] vs h = let k : [] ≡ vs = cc h in rw (← k) (refl, (λ x. tt, λ x. refl))
  verify_all-Audits (s ∷ ss) vs h =
      let (code, e, h') = bind-ok (verify_segment read s) _ h in
      let (rest, f, h2) = bind-ok (verify_all read ss) _ h' in
      let k : verification s code ∷ rest ≡ vs = cc h2 in
      let (ids, one) = verify_all-Audits ss rest f in
      let here = code-IsSound s (read s.row.day s.row.batch_id) code refl e in
      rw (← k)
        (ap (λ l. s.row.batch_id ∷ l) ids, and_iff (is_clean code) (report_intact rest) here one)

  verify_spool-Keeps : {P : Tables → Type 0} → Keeps P (verify_spool read)
  unfolding verify_spool
  verify_spool-Keeps =
      bind-Keeps (list_segment_records none) (λ ss. Job.lift (verify_all read ss))
        (list_segment_records-Keeps none) (λ ss. lift-Keeps (verify_all read ss))

  -- When `verify_spool` returns, it has one result for each listed record, in their order, the report
  -- is intact exactly if every record's file could be read and agrees with its row, and no table has
  -- changed.
  pub verify_spool-Audits :
      (w : World) (vs : List SegmentVerification)
      → (verify_spool read w).0 ≡ ok vs
      → (ss : List SegmentRecord) × ((list_segment_records none w).0 ≡ ok ss)
        × Audits ss vs
        × ((verify_spool read w).1.database.tables ≡ w.database.tables)
  unfolding verify_spool
  verify_spool-Audits w vs h = elim (Outcome-cases (list_segment_records none w).0) [
    | inl (ss, e) ↦ (
      ss,
      e,
      verify_all-Audits ss vs (ground (arith, e, h)),
      (verify_spool-Keeps {P = λ t. t ≡ w.database.tables}).kept w refl,
    )
    | inr (x, e) ↦ absurd (ground (arith, e, h))
  ]
