-- ===== src/Spooling/Retention/Preview.antt =====
-- The preview and the apply pass judge a segment alike.
use milhouse_oss.Prelude.{
  ◌≡◌, ◌≢◌, refl, inl, inr, ◌⊎◌, Bool-cases, true, false, some, List, [], ◌∷◌, arith, Text,
}
use milhouse_oss.Python.Datetime.{Datetime, instant_le}
use milhouse_oss.Python.Outcome.{
  Outcome, ok, raised, fault, time_error, sqlite_error, overflow_error, unicode_error,
}
use milhouse_oss.Spooling.Job
use milhouse_oss.Spooling.Job.{SpoolCode, Job, World}
use milhouse_oss.Spooling.Segment.{SpoolFrame}
use milhouse_oss.Spooling.Export.{earliest}
use milhouse_oss.Spooling.Reader.{ParsedSegment}
use milhouse_oss.Spooling.Ledger.{SegmentRecord}
use milhouse_oss.Spooling.Agreement.{agrees}
use milhouse_oss.Spooling.Retention.{
  fully_expired, unreadable, SegmentRetention, FileOutcome, latest, expiry_status, retained,
  prune_segment, judged, classified, classify, skip_unpruned, live_or_mixed, has_live, apply_parsed,
  apply_read, apply_one,
}

frames_follow :
    (s : SegmentRecord) (now : Datetime) (fs : List SpoolFrame)
    → ((has_live now fs ≡ true) × (expiry_status now fs ≡ live_or_mixed now fs))
      ⊎ ((has_live now fs ≡ false) × (expiry_status now fs ≡ fully_expired))
unfolding expiry_status
frames_follow s now [] = inl (refl, refl)
frames_follow s now (f ∷ fs) = elim (Bool-cases (instant_le (latest f.expires_at fs) now)) [
  | inl h ↦ inr (rw h refl, rw h refl)
  | inr h ↦ inl (rw h refl, rw h refl)
]

live_ne : (now : Datetime) (fs : List SpoolFrame) → live_or_mixed now fs ≢ fully_expired
live_ne now [] h = absurd (cc h)
live_ne now (f ∷ fs) h = elim (Bool-cases (instant_le (earliest f.expires_at fs) now)) [
  | inl k ↦ absurd (ground (arith, h, k))
  | inr k ↦ absurd (ground (arith, h, k))
]

module _ (read : Text → Text → Outcome SpoolCode ParsedSegment)
    (remove : Text → Text → FileOutcome) where
  -- What the pass does with a segment that the preview has classified as `c`.
  abbrev pub Follows : SegmentRecord → Datetime → SegmentRetention → World → Type 0
  Follows s now c w =
      ((c.status ≢ fully_expired) × (apply_one read remove s now w ≡ (ok (inr c), w)))
      ⊎ ((c.status ≡ fully_expired)
          × (apply_one read remove s now w
              ≡ Job.◌>>=◌ (prune_segment read remove s now) (λ o. Job.pure (skip_unpruned s o)) w))

  parsed_follow :
      (s : SegmentRecord) (now : Datetime) (p : ParsedSegment) (w : World)
      → read s.row.day s.row.batch_id ≡ ok p
      → Follows s now (judged s now p) w
  unfolding apply_one apply_read apply_parsed
  parsed_follow s now p w e = elim (Bool-cases (agrees p s.row.day s.row.batch_id s)) [
    | inr d ↦ rw (e, d) (inl (λ k. absurd (cc k), refl))
    | inl a ↦ elim (frames_follow s now p.frames) [
      | inl (h, k) ↦ rw (e, a, h, k) (inl (live_ne now p.frames, refl))
      | inr (h, k) ↦ rw (e, a, h, k) (inr (refl, refl))
    ]
  ]

  read_follow :
      (s : SegmentRecord) (now : Datetime) (c : SegmentRetention) (w : World)
      (o : Outcome SpoolCode ParsedSegment)
      → read s.row.day s.row.batch_id ≡ o
      → classified s now o ≡ ok c
      → Follows s now c w
  unfolding apply_one apply_read
  read_follow s now c w (ok p) e h =
      let k : judged s now p ≡ c = cc h in rw (← k) (parsed_follow s now p w e)
  read_follow s now c w (raised (fault x)) e h =
      let k : retained s unreadable (some x) ≡ c = cc h in
      rw (e, ← k) (inl (λ f. absurd (cc f), refl))
  read_follow s now c w (raised (time_error x)) e h = absurd (cc h)
  read_follow s now c w (raised sqlite_error) e h = absurd (cc h)
  read_follow s now c w (raised overflow_error) e h = absurd (cc h)
  read_follow s now c w (raised unicode_error) e h = absurd (cc h)

  -- Where the preview's `_classify` gives a classification `c` of a segment, the apply pass's
  -- `_apply_one` skips the segment with that same `c` and touches nothing, unless `c` is
  -- `fully_expired`; and if it is, `_apply_one` does what `_prune_segment` does.
  pub apply_one-classify :
      (s : SegmentRecord) (now : Datetime) (c : SegmentRetention) (w : World)
      → classify read remove s now ≡ ok c
      → Follows s now c w
  unfolding classify
  apply_one-classify s now c w h = read_follow s now c w (read s.row.day s.row.batch_id) refl h
