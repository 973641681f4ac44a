-- ===== src/Spooling/Reader/RoundTrip.antt =====
-- The segment that the writer builds is the segment that the reader finds.
use milhouse_oss.Prelude.{
  ℕ, suc, ◌+◌, ◌≤◌, ◌≡◌, ◌≢◌, refl, ap, inl, inr, some, List, [], ◌∷◌, ◌++◌, map, ltb, arith, All,
  length, length-append, Text, text_eq_iff,
}
use milhouse_oss.Python.Outcome.{Outcome, ok, fail_if, Outcome-cases, bind-ok, fail_if-ok}
use milhouse_oss.Outbox.Lines.{
  Bytes, lf, iter_complete_lines, lines_cons, lines_nil, complete_end, join,
}
use milhouse_oss.Spooling.Job.{SpoolCode, size_fault}
use milhouse_oss.Spooling.Segment.{
  SpoolFrame, SegmentHeader, max_header_line_bytes, max_frame_line_bytes, max_segment_file_bytes,
  max_segment_frames, validate_frame, validate_header, joined,
}
use milhouse_oss.Spooling.Writer.{
  consistent_frame, consistent_frames, validate_consistency, within_size, build_segment_bytes,
}
use milhouse_oss.Spooling.Reader.{
  HeaderObject, FrameObject, check_line, check_lines, first_and_rest, split_lines, parse_header,
  check_frame, parse_frame, parse_frames, parse_segment_bytes,
}

-- One line: at least one byte, and then the only LF.
abbrev pub IsEnd : Bytes → Type 0
IsEnd [] = ⊥
IsEnd (b ∷ []) = b ≡ lf
IsEnd (b ∷ c ∷ s) = (b ≢ lf) × IsEnd (c ∷ s)

abbrev pub IsLine : Bytes → Type 0
IsLine s = IsEnd s × (length s ≢ 1)

line-lines : (l s : Bytes) → IsEnd l → iter_complete_lines (l ++ s) ≡ l ∷ iter_complete_lines s
line-lines [] s h = absurd h
line-lines (b ∷ []) s h = ground (arith, lines_cons b s)
line-lines (b ∷ c ∷ l) s (h, k) =
    ground (arith, lines_cons b ((c ∷ l) ++ s), line-lines (c ∷ l) s k)

end-length : (l : Bytes) → IsEnd l → 1 ≤ length l
end-length [] h = absurd h
end-length (b ∷ l) h = omega arith

-- The last line ends the content.
complete_end-line :
    (l s : Bytes) → IsEnd l → complete_end s ≡ length s → complete_end (l ++ s) ≡ length (l ++ s)
unfolding complete_end
complete_end-line [] s h e = absurd h
complete_end-line (b ∷ []) s h e = ground arith
complete_end-line (b ∷ c ∷ l) s (h, k) e = ground (arith, complete_end-line (c ∷ l) s k e)

check_line-ok : (limit : ℕ) (l : Bytes) → IsLine l → length l ≤ limit → check_line limit l ≡ ok tt
unfolding check_line
check_line-ok limit l (e, n) b = ground arith

within_size-bound :
    (total : ℕ) (fs : List SpoolFrame)
    → total ≤ max_segment_file_bytes
    → within_size total fs ≡ ok tt
    → total + length (joined fs) ≤ max_segment_file_bytes
unfolding within_size joined
within_size-bound total [] b h = omega arith
within_size-bound total (f ∷ fs) b h =
    let n : ℕ = total + length f.line in
    let (u, e, k) =
      bind-ok (fail_if (ltb max_segment_file_bytes n) size_fault) (λ x. within_size n fs) h in
    let e' = fail_if-ok (ltb max_segment_file_bytes n) size_fault e in
    omega (arith, length-append f.line (joined fs), within_size-bound n fs (ground (arith, e')) k)

join-frames : (fs : List SpoolFrame) → join (map SpoolFrame.line fs) ≡ joined fs
unfolding join joined
join-frames [] = refl
join-frames (f ∷ fs) = ap (λ s. f.line ++ s) (join-frames fs)

length-lines : (fs : List SpoolFrame) → length (map SpoolFrame.line fs) ≡ length fs
length-lines [] = refl
length-lines (f ∷ fs) = ap suc (length-lines fs)

module _ (load_header : Bytes → Outcome SpoolCode HeaderObject)
    (load_frame : Bytes → Outcome SpoolCode FrameObject) (header_line : SegmentHeader → Bytes)
    (hexdigest : Bytes → Text) where
  -- A valid header, whose canonical line is one bounded line that decodes to it.
  abbrev pub IsHeader : SegmentHeader → Type 0
  IsHeader h =
      (validate_header h ≡ ok tt)
      × IsLine (header_line h)
      × (length (header_line h) ≤ max_header_line_bytes)
      × (load_header (header_line h) ≡ ok (record { schema = 1; frame_version = 1; header = h }))

  abbrev pub IsFrame : SpoolFrame → Type 0
  IsFrame f =
      (validate_frame f ≡ ok tt)
      × IsLine f.line
      × (length f.line ≤ max_frame_line_bytes)
      × (load_frame f.line
          ≡ ok (record { frame_version = 1; record_id = f.record_id; frame = some f }))

  frame_lines :
      (fs : List SpoolFrame)
      → All IsFrame fs
      → iter_complete_lines (joined fs) ≡ map SpoolFrame.line fs
  unfolding joined
  frame_lines [] h = lines_nil
  frame_lines (f ∷ fs) ((v, (l, n), b, e), h) =
      ground (arith, line-lines f.line (joined fs) l, frame_lines fs h)

  frames_end :
      (fs : List SpoolFrame) → All IsFrame fs → complete_end (joined fs) ≡ length (joined fs)
  unfolding joined complete_end
  frames_end [] h = refl
  frames_end (f ∷ fs) ((v, (l, n), b, e), h) =
      complete_end-line f.line (joined fs) l (frames_end fs h)

  check_lines-ok :
      (fs : List SpoolFrame) → All IsFrame fs → check_lines (map SpoolFrame.line fs) ≡ ok tt
  unfolding check_lines
  check_lines-ok [] h = refl
  check_lines-ok (f ∷ fs) ((v, l, b, e), h) =
      rw (check_line-ok max_frame_line_bytes f.line l b) (check_lines-ok fs h)

  parse_frame-ok :
      (h : SegmentHeader) (index : ℕ) (f : SpoolFrame)
      → IsFrame f
      → consistent_frame h index f ≡ ok tt
      → parse_frame load_header load_frame header_line hexdigest f.line h index ≡ ok f
  unfolding parse_frame check_frame consistent_frame
  parse_frame-ok h index f (v, l, b, e) k =
      ground (arith, e, v, k, text_eq_iff f.record_id f.record_id, text_eq_iff f.line f.line)

  parse_frames-ok :
      (h : SegmentHeader) (index : ℕ) (fs : List SpoolFrame)
      → All IsFrame fs
      → consistent_frames h index fs ≡ ok tt
      → parse_frames load_header load_frame header_line hexdigest (map SpoolFrame.line fs) h index
        ≡ ok fs
  unfolding parse_frames consistent_frames
  parse_frames-ok h index [] p k = refl
  parse_frames-ok h index (f ∷ fs) (p, ps) k =
      let (u, e, k') =
        bind-ok (consistent_frame h index f) (λ x. consistent_frames h (suc index) fs) k in
      rw (parse_frame-ok h index f p e, parse_frames-ok h (suc index) fs ps k') refl

  parse_header-ok :
      (h : SegmentHeader)
      → IsHeader h
      → parse_header load_header load_frame header_line hexdigest (header_line h) ≡ ok h
  unfolding parse_header
  parse_header-ok h (v, l, b, e) = ground (arith, e, v, text_eq_iff (header_line h) (header_line h))

  split_lines-ok :
      (h : SegmentHeader) (fs : List SpoolFrame)
      → IsHeader h
      → All IsFrame fs
      → length (header_line h ++ joined fs) ≤ max_segment_file_bytes
      → split_lines (header_line h ++ joined fs) ≡ ok (header_line h, map SpoolFrame.line fs)
  unfolding split_lines first_and_rest
  split_lines-ok h fs (v, (l, n), b, e) p bound =
      rw
        (
          line-lines (header_line h) (joined fs) l,
          frame_lines fs p,
          check_line-ok max_header_line_bytes (header_line h) (l, n) b,
          check_lines-ok fs p,
          complete_end-line (header_line h) (joined fs) l (frames_end fs p),
        )
        (ground
          (arith, bound, end-length (header_line h) l, length-append (header_line h) (joined fs)))

  -- The whole of what the writer tests.
  built-ok :
      (h : SegmentHeader) (fs : List SpoolFrame) {content : Bytes}
      → length (header_line h) ≤ max_header_line_bytes
      → build_segment_bytes header_line hexdigest h fs ≡ ok content
      → (content ≡ header_line h ++ joined fs)
        × (length fs ≤ max_segment_frames)
        × (h.record_count ≡ length fs)
        × (consistent_frames h 1 fs ≡ ok tt)
        × (length content ≤ max_segment_file_bytes)
        × (hexdigest (joined fs) ≡ h.content_sha256)
  unfolding build_segment_bytes validate_consistency
  built-ok h fs b e =
      let n : ℕ = length (header_line h) in
      elim (Outcome-cases (consistent_frames h 1 fs)) [
        | inr (x, k) ↦ ground (arith, e, k)
        | inl (u, k) ↦ elim (Outcome-cases (within_size n fs)) [
          | inr (x, m) ↦ ground (arith, e, k, m)
          | inl (u', m) ↦ ground (
            arith,
            e,
            k,
            m,
            within_size-bound n fs,
            length-append (header_line h) (joined fs),
            text_eq_iff (hexdigest (joined fs)) h.content_sha256,
          )
        ]
      ]

  -- What `build_segment_bytes` gives for a header and frames, `parse_segment_bytes` reads back: the
  -- same header, the same frames in the same order, with the size and the digest of the bytes. The
  -- header and the frames are valid ones, whose canonical lines are single bounded lines that JSON
  -- decodes to what they were made of.
  pub parse-build :
      (h : SegmentHeader) (fs : List SpoolFrame) {content : Bytes}
      → IsHeader h
      → All IsFrame fs
      → build_segment_bytes header_line hexdigest h fs ≡ ok content
      → parse_segment_bytes load_header load_frame header_line hexdigest content
        ≡ ok (record {
          header = h;
          frames = fs;
          byte_size = length content;
          file_sha256 = hexdigest content;
        })
  unfolding parse_segment_bytes
  parse-build h fs {content} p ps e =
      let (q, few, count, k, size, digest) = built-ok h fs p.2 e in
      rw
        (
          q,
          split_lines-ok h fs p ps (rw (← q) size),
          parse_header-ok h p,
          parse_frames-ok h 1 fs ps k,
          join-frames fs,
        )
        (ground (
          arith,
          few,
          count,
          digest,
          length-lines fs,
          text_eq_iff (hexdigest (joined fs)) h.content_sha256,
        ))
