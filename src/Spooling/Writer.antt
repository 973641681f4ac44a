-- ===== src/Spooling/Writer.antt =====
-- src/milhouse/spooling/writer.py: the bytes of a segment, from a header and frames that agree.
use milhouse_oss.Prelude.{
  ℕ, suc, ◌+◌, Bool, true, false, not, Option, none, some, List, [], ◌∷◌, ◌++◌, ltb, ◌==◌, length,
  Text, text_eq,
}
use milhouse_oss.Python.Outcome.{Outcome, ok, ◌>>◌, fail_if}
use milhouse_oss.Outbox.Lines.{Bytes}
use milhouse_oss.Spooling.Job.{
  SpoolCode, batch_id_fault, sequence_fault, scope_fault, target_fault, privacy_fault, count_fault,
  digest_fault, size_fault,
}
use milhouse_oss.Spooling.Segment.{
  SpoolFrame, SegmentHeader, max_segment_file_bytes, max_segment_frames, joined,
}

-- `==` on optional texts.
abbrev pub same_target : Option Text → Option Text → Bool
same_target none none = true
same_target (some s) (some t) = text_eq s t
same_target _ _ = false

-- The tests that the writer and the reader make of a frame against the header.
unfoldable pub fits_header : SegmentHeader → SpoolFrame → Outcome SpoolCode (Unit {0})
fits_header h f =
    fail_if (not (text_eq f.scope h.scope)) scope_fault
    >> fail_if (not (same_target f.target_id h.target_id)) target_fault
    >> fail_if (not (text_eq f.privacy_class h.privacy_class)) privacy_fault

-- One turn of the loop of `_validate_consistency`, at `index`.
unfoldable pub consistent_frame : SegmentHeader → ℕ → SpoolFrame → Outcome SpoolCode (Unit {0})
unfolding fits_header
consistent_frame h index f =
    fail_if (not (f.sequence == index)) sequence_fault
    >> fail_if (not (text_eq f.batch_id h.batch_id)) batch_id_fault
    >> fits_header h f

unfoldable pub consistent_frames :
    SegmentHeader → ℕ → List SpoolFrame → Outcome SpoolCode (Unit {0})
unfolding consistent_frame
consistent_frames h index [] = ok tt
consistent_frames h index (f ∷ fs) =
    consistent_frame h index f >> consistent_frames h (suc index) fs

-- `_validate_consistency`
unfoldable pub validate_consistency : SegmentHeader → List SpoolFrame → Outcome SpoolCode (Unit {0})
unfolding consistent_frames
validate_consistency h frames =
    fail_if (not (h.record_count == length frames)) count_fault >> consistent_frames h 1 frames

-- The loop that adds up the bytes.
unfoldable pub within_size : ℕ → List SpoolFrame → Outcome SpoolCode (Unit {0})
within_size total [] = ok tt
within_size total (f ∷ fs) =
    fail_if (ltb max_segment_file_bytes (total + length f.line)) size_fault
    >> within_size (total + length f.line) fs

-- `header_line` is `spool_segment_header_line`, `hexdigest` the hash of `spool_content_sha256`.
module _ (header_line : SegmentHeader → Bytes) (hexdigest : Bytes → Text) where
  unfoldable pub build_segment_bytes : SegmentHeader → List SpoolFrame → Outcome SpoolCode Bytes
  unfolding validate_consistency within_size joined
  build_segment_bytes h frames =
      fail_if (ltb max_segment_frames (length frames)) count_fault
      >> validate_consistency h frames
      >> within_size (length (header_line h)) frames
      >> fail_if (not (text_eq (hexdigest (joined frames)) h.content_sha256)) digest_fault
      >> ok (header_line h ++ joined frames)
