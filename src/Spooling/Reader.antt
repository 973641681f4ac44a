-- ===== src/Spooling/Reader.antt =====
-- src/milhouse/spooling/reader.py: the checks that make the bytes of a segment file a segment.
pub mod RoundTrip
pub mod Canonical
use milhouse_oss.Prelude.{
  ℕ, suc, Bool, true, false, not, ◌&&◌, ◌||◌, Option, none, some, List, [], ◌∷◌, ltb, ◌==◌,
  if◌then◌else◌, all, length, Text, text_eq,
}
use milhouse_oss.Python.Outcome.{Outcome, ok, raised, fault, ◌>>=◌, ◌>>◌, fail_if}
use milhouse_oss.Outbox.Lines.{Bytes, lf, iter_complete_lines, complete_end, join}
use milhouse_oss.Spooling.Job.{
  SpoolCode, batch_id_fault, sequence_fault, count_fault, digest_fault, size_fault, truncated_fault,
  line_fault, header_fault, frame_fault, record_fault,
}
use milhouse_oss.Spooling.Segment.{
  SpoolFrame, SegmentHeader, max_header_line_bytes, max_frame_line_bytes, max_segment_file_bytes,
  max_segment_frames, validate_frame, validate_header,
}
use milhouse_oss.Spooling.Writer.{fits_header}

pub record ParsedSegment : Type 0 where
  pub header : SegmentHeader
  pub frames : List SpoolFrame
  pub byte_size : ℕ
  pub file_sha256 : Text

-- The object of a header line, its fields of the right types.
pub record HeaderObject : Type 0 where
  pub schema : ℕ
  pub frame_version : ℕ
  pub header : SegmentHeader

-- The object of a frame line; `frame` is `none` where the record is not an envelope.
pub record FrameObject : Type 0 where
  pub frame_version : ℕ
  pub record_id : Text
  pub frame : Option SpoolFrame

-- One part of the split, with its line feed.
unfoldable pub check_line : ℕ → Bytes → Outcome SpoolCode (Unit {0})
check_line limit line =
    fail_if (length line == 1) truncated_fault >> fail_if (ltb limit (length line)) line_fault

unfoldable pub check_lines : List Bytes → Outcome SpoolCode (Unit {0})
unfolding check_line
check_lines [] = ok tt
check_lines (l ∷ ls) = check_line max_frame_line_bytes l >> check_lines ls

-- The header line and the frame lines.
unfoldable pub first_and_rest : List Bytes → Outcome SpoolCode (Bytes × List Bytes)
unfolding check_lines check_line
first_and_rest [] = raised (fault truncated_fault)
first_and_rest (l ∷ ls) = check_line max_header_line_bytes l >> check_lines ls >> ok (l, ls)

-- `_split_lines`
unfoldable pub split_lines : Bytes → Outcome SpoolCode (Bytes × List Bytes)
unfolding first_and_rest
split_lines content =
    fail_if (ltb max_segment_file_bytes (length content)) size_fault
    >> fail_if (length content == 0) truncated_fault
    >> fail_if (not (complete_end content == length content)) truncated_fault
    >> first_and_rest (iter_complete_lines content)

abbrev pub reconstructed : Option SpoolFrame → Outcome SpoolCode SpoolFrame
reconstructed none = raised (fault record_fault)
reconstructed (some f) = ok f

-- `load_header` and `load_frame` are `json.loads` of a line, with the tests of its keys and of the
-- types of its values, and the reconstruction of the record; `header_line` is
-- `spool_segment_header_line`, `hexdigest` the hash.
module _ (load_header : Bytes → Outcome SpoolCode HeaderObject)
    (load_frame : Bytes → Outcome SpoolCode FrameObject) (header_line : SegmentHeader → Bytes)
    (hexdigest : Bytes → Text) where
  -- `_parse_header`
  unfoldable pub parse_header : Bytes → Outcome SpoolCode SegmentHeader
  unfolding validate_header
  parse_header line = do
    obj ← load_header line
    fail_if (not (obj.schema == 1) || not (obj.frame_version == 1)) header_fault
    validate_header obj.header
    fail_if (not (text_eq (header_line obj.header) line)) header_fault
    ok obj.header

  -- What the header says of the frame, and the canonical line.
  unfoldable pub check_frame :
      Bytes → SegmentHeader → ℕ → Text → SpoolFrame → Outcome SpoolCode SpoolFrame
  unfolding fits_header validate_frame
  check_frame line header expected_sequence record_id frame = do
    validate_frame frame
    fail_if (not (frame.sequence == expected_sequence)) sequence_fault
    fail_if (not (text_eq frame.batch_id header.batch_id)) batch_id_fault
    fail_if (not (text_eq record_id frame.record_id)) record_fault
    fits_header header frame
    fail_if (not (text_eq frame.line line)) frame_fault
    ok frame

  -- `_parse_frame`
  unfoldable pub parse_frame : Bytes → SegmentHeader → ℕ → Outcome SpoolCode SpoolFrame
  unfolding check_frame
  parse_frame line header expected_sequence = do
    obj ← load_frame line
    fail_if (not (obj.frame_version == 1)) frame_fault
    frame ← reconstructed obj.frame
    check_frame line header expected_sequence obj.record_id frame

  unfoldable pub parse_frames : List Bytes → SegmentHeader → ℕ → Outcome SpoolCode (List SpoolFrame)
  unfolding parse_frame
  parse_frames [] header sequence = ok []
  parse_frames (l ∷ ls) header sequence = do
    f ← parse_frame l header sequence
    fs ← parse_frames ls header (suc sequence)
    ok (f ∷ fs)

  abbrev pub parsed : Bytes → SegmentHeader → List SpoolFrame → ParsedSegment
  parsed content header frames = record {
    header = header;
    frames = frames;
    byte_size = length content;
    file_sha256 = hexdigest content;
  }

  unfoldable pub parse_segment_bytes : Bytes → Outcome SpoolCode ParsedSegment
  unfolding split_lines parse_header parse_frames join
  parse_segment_bytes content = do
    lines ← split_lines content
    fail_if (ltb max_segment_frames (length lines.1)) count_fault
    header ← parse_header lines.0
    frames ← parse_frames lines.1 header 1
    fail_if (not (length frames == header.record_count)) count_fault
    fail_if (not (text_eq (hexdigest (join lines.1)) header.content_sha256)) digest_fault
    ok (parsed content header frames)

  -- `_verify_identity`. `is_own` is `verify_record_identity` for the installation.
  unfoldable pub verify_identity :
      (SpoolFrame → Bool) → List SpoolFrame → Outcome SpoolCode (Unit {0})
  verify_identity is_own frames = fail_if (not (all is_own frames)) record_fault

  -- `read_trusted_segment`, of the bytes that the secure open and read give, or its code.
  unfoldable pub read_trusted_segment :
      (SpoolFrame → Bool) → Outcome SpoolCode Bytes → Outcome SpoolCode ParsedSegment
  unfolding parse_segment_bytes verify_identity
  read_trusted_segment is_own file = do
    content ← file
    segment ← parse_segment_bytes content
    verify_identity is_own segment.frames
    ok segment
