-- ===== src/Spooling/Segment.antt =====
-- src/milhouse/spooling/segment.py: the frames and the header of a segment file.
use milhouse_oss.Prelude.{
  ℕ, ◌^◌, ◌-◌, Bool, true, not, ◌&&◌, Option, none, some, List, [], ◌∷◌, ◌++◌, ltb, leb, all, Text,
  codes, text_lt, text_in,
}
use milhouse_oss.Python.Datetime.{Datetime}
use milhouse_oss.Python.Patterns.{is_name, is_sha256_hex}
use milhouse_oss.Python.Outcome.{Outcome, ◌>>◌, fail_if}
use milhouse_oss.Outbox.Lines.{Bytes}
use milhouse_oss.Spooling.Job.{
  SpoolCode, batch_id_fault, sequence_fault, config_generation_fault, scope_fault, target_fault,
  privacy_fault, retention, exporters_fault, count_fault, digest_fault,
}

-- `SpoolFrameV1`: of its record what the spool reads of it, and `line`, the bytes that
-- `spool_frame_line` gives for the frame.
pub record SpoolFrame : Type 0 where
  pub batch_id : Text
  pub sequence : ℕ
  pub record_id : Text
  pub scope : Text
  pub target_id : Option Text
  pub privacy_class : Text
  pub expires_at : Datetime
  pub line : Bytes

-- `SegmentHeaderV1`
pub record SegmentHeader : Type 0 where
  pub batch_id : Text
  pub config_generation : Text
  pub scope : Text
  pub target_id : Option Text
  pub privacy_class : Text
  pub retention_days : ℕ
  pub required_exporters : List Text
  pub record_count : ℕ
  pub content_sha256 : Text

abbrev pub max_header_line_bytes : ℕ
max_header_line_bytes = 8192

abbrev pub max_frame_line_bytes : ℕ
max_frame_line_bytes = 263168

abbrev pub max_segment_file_bytes : ℕ
max_segment_file_bytes = 67108864

abbrev pub max_segment_frames : ℕ
max_segment_frames = 1000000

abbrev pub max_canonical_int : ℕ
max_canonical_int = 2 ^ 63 - 1

abbrev is_batch_id : Text → Bool
is_batch_id s = is_name 127 s

-- `SpoolFrameV1.__post_init__`, of a frame whose fields have their types.
unfoldable pub validate_frame : SpoolFrame → Outcome SpoolCode (Unit {0})
unfolding is_name
validate_frame f =
    fail_if (not (is_batch_id f.batch_id)) batch_id_fault
    >> fail_if (not (ltb 0 f.sequence && leb f.sequence max_canonical_int)) sequence_fault

abbrev is_target_of : Text → Option Text → Bool
is_target_of scope none = not (text_in scope (codes "target" ∷ []))
is_target_of scope (some t) = text_in scope (codes "target" ∷ []) && is_name 255 t

-- `list(ids) == sorted(set(ids))`
unfoldable pub is_sorted_unique : List Text → Bool
is_sorted_unique [] = true
is_sorted_unique (a ∷ []) = true
is_sorted_unique (a ∷ b ∷ ids) = text_lt a b && is_sorted_unique (b ∷ ids)

-- `SegmentHeaderV1.__post_init__`, of a header whose fields have their types.
unfoldable pub validate_header : SegmentHeader → Outcome SpoolCode (Unit {0})
unfolding is_name is_sha256_hex is_sorted_unique
validate_header h =
    fail_if (not (is_batch_id h.batch_id)) batch_id_fault
    >> fail_if (not (is_sha256_hex h.config_generation)) config_generation_fault
    >> fail_if (not (text_in h.scope (codes "installation" ∷ codes "target" ∷ []))) scope_fault
    >> fail_if (not (is_target_of h.scope h.target_id)) target_fault
    >> fail_if
        (not (text_in h.privacy_class (codes "public" ∷ codes "internal" ∷ codes "sensitive" ∷ [])))
        privacy_fault
    >> fail_if (not (ltb 0 h.retention_days && leb h.retention_days 3650)) retention
    >> fail_if (not (all (is_name 63) h.required_exporters)) exporters_fault
    >> fail_if (not (is_sorted_unique h.required_exporters)) exporters_fault
    >> fail_if (not (leb h.record_count max_canonical_int)) count_fault
    >> fail_if (not (is_sha256_hex h.content_sha256)) digest_fault

-- The bytes that `spool_content_sha256` hashes.
unfoldable pub joined : List SpoolFrame → Bytes
joined [] = []
joined (f ∷ fs) = f.line ++ joined fs
