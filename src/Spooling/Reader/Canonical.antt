-- ===== src/Spooling/Reader/Canonical.antt =====
-- What the reader accepts is what the writer would write.
use milhouse_oss.Prelude.{
  ℕ, suc, ◌+◌, ◌≤◌, ◌≡◌, ◌∙◌, refl, ap, sym, true, false, not, ◌||◌, List, [], ◌∷◌, ◌++◌, ltb, ◌==◌,
  arith, length, length-append, Text, text_eq, text_eq_iff,
}
use mathlib.Core.Path.{subst}
use milhouse_oss.Python.Outcome.{Outcome, ok, ◌>>◌, fail_if, bind-ok, fail_if-ok}
use milhouse_oss.Outbox.Lines.{
  Bytes, IsComplete, iter_complete_lines, complete_end, join, join-lines, take,
}
use milhouse_oss.Outbox.Ends.{complete_end-IsComplete}
use milhouse_oss.Spooling.Job.{
  SpoolCode, size_fault, truncated_fault, count_fault, digest_fault, header_fault, frame_fault,
  record_fault, sequence_fault, batch_id_fault,
}
use milhouse_oss.Spooling.Segment.{
  SpoolFrame, SegmentHeader, max_segment_file_bytes, max_segment_frames, max_header_line_bytes,
  validate_frame, validate_header, joined,
}
use milhouse_oss.Spooling.Writer.{
  fits_header, consistent_frame, consistent_frames, validate_consistency, within_size,
  build_segment_bytes,
}
use milhouse_oss.Spooling.Reader.{
  ParsedSegment, HeaderObject, FrameObject, check_line, check_lines, first_and_rest, split_lines,
  parse_header, check_frame, parse_frame, parse_frames, reconstructed, parsed, parse_segment_bytes,
}

take-all : (s : Bytes) → take (length s) s ≡ s
unfolding take
take-all [] = refl
take-all (b ∷ s) = ap (λ t. b ∷ t) (take-all s)

first_and_rest-ok :
    (ls : List Bytes) {l : Bytes} {rest : List Bytes}
    → first_and_rest ls ≡ ok (l, rest)
    → ls ≡ l ∷ rest
unfolding first_and_rest
first_and_rest-ok [] h = absurd (cc h)
first_and_rest-ok (x ∷ xs) {l = l} {rest = rest} h =
    let (u, e, k) =
      bind-ok (check_line max_header_line_bytes x >> check_lines xs) (λ y. ok (x, xs)) h in
    cc k

-- The lines are the whole of the content, which is not too long.
split_lines-whole :
    (content : Bytes) {l : Bytes} {rest : List Bytes}
    → split_lines content ≡ ok (l, rest)
    → (l ++ join rest ≡ content) × (length content ≤ max_segment_file_bytes)
unfolding split_lines join
split_lines-whole content {l = l} {rest = rest} h =
    let (u, e, k) =
      bind-ok
        (fail_if (ltb max_segment_file_bytes (length content)) size_fault
          >> fail_if (length content == 0) truncated_fault
          >> fail_if (not (complete_end content == length content)) truncated_fault)
        (λ x. first_and_rest (iter_complete_lines content)) h in
    let lines = first_and_rest-ok (iter_complete_lines content) {l = l} {rest = rest} k in
    let same : complete_end content ≡ length content = ground (arith, e) in
    let whole : IsComplete content =
      subst IsComplete (ap (λ n. take n content) same ∙ take-all content)
        (complete_end-IsComplete content) in
    (ap join (sym lines) ∙ join-lines content whole, ground (arith, e))

fits-within_size :
    (total : ℕ) (fs : List SpoolFrame)
    → total + length (joined fs) ≤ max_segment_file_bytes
    → within_size total fs ≡ ok tt
unfolding within_size joined
fits-within_size total [] b = refl
fits-within_size total (f ∷ fs) b =
    let n : ℕ = total + length f.line in
    let fits : ltb max_segment_file_bytes n ≡ false =
      ground (arith, b, length-append f.line (joined fs)) in
    rw fits (fits-within_size n fs (omega (arith, b, length-append f.line (joined fs))))

module _ (load_header : Bytes → Outcome SpoolCode HeaderObject)
    (load_frame : Bytes → Outcome SpoolCode FrameObject) (header_line : SegmentHeader → Bytes)
    (hexdigest : Bytes → Text) where
  parse_header-line :
      (line : Bytes) (h : SegmentHeader)
      → parse_header load_header load_frame header_line hexdigest line ≡ ok h
      → header_line h ≡ line
  unfolding parse_header
  parse_header-line line h e =
      let (obj, e1, h1) = bind-ok (load_header line) _ e in
      let (u, e2, h2) =
        bind-ok (fail_if (not (obj.schema == 1) || not (obj.frame_version == 1)) header_fault) _
          h1 in
      let (v, e3, h3) = bind-ok (validate_header obj.header) _ h2 in
      let (x, e4, h4) =
        bind-ok (fail_if (not (text_eq (header_line obj.header) line)) header_fault) _ h3 in
      let same : obj.header ≡ h = cc h4 in
      ap header_line (sym same)
      ∙ (text_eq_iff (header_line obj.header) line).0 (
          ground (
            arith,
            fail_if-ok (not (text_eq (header_line obj.header) line)) header_fault {u = x} e4,
          ))

  check_frame-consistent :
      (l : Bytes) (h : SegmentHeader) (i : ℕ) (id : Text) (g f : SpoolFrame)
      → check_frame load_header load_frame header_line hexdigest l h i id g ≡ ok f
      → (f.line ≡ l) × (consistent_frame h i f ≡ ok tt)
  unfolding check_frame consistent_frame
  check_frame-consistent l h i id g f e =
      let (u1, e1, h1) = bind-ok (validate_frame g) _ e in
      let (u2, e2, h2) = bind-ok (fail_if (not (g.sequence == i)) sequence_fault) _ h1 in
      let (u3, e3, h3) =
        bind-ok (fail_if (not (text_eq g.batch_id h.batch_id)) batch_id_fault) _ h2 in
      let (u4, e4, h4) = bind-ok (fail_if (not (text_eq id g.record_id)) record_fault) _ h3 in
      let (u5, e5, h5) = bind-ok (fits_header h g) _ h4 in
      let (u6, e6, h6) = bind-ok (fail_if (not (text_eq g.line l)) frame_fault) _ h5 in
      let same : g ≡ f = cc h6 in
      let canonical = fail_if-ok (not (text_eq g.line l)) frame_fault {u = u6} e6 in
      rw (← same) ((text_eq_iff g.line l).0 (ground (arith, canonical)), rw (e2, e3, e5) refl)

  parse_frame-consistent :
      (l : Bytes) (h : SegmentHeader) (i : ℕ) (f : SpoolFrame)
      → parse_frame load_header load_frame header_line hexdigest l h i ≡ ok f
      → (f.line ≡ l) × (consistent_frame h i f ≡ ok tt)
  unfolding parse_frame
  parse_frame-consistent l h i f e =
      let (obj, e1, h1) = bind-ok (load_frame l) _ e in
      let (u, e2, h2) = bind-ok (fail_if (not (obj.frame_version == 1)) frame_fault) _ h1 in
      let (g, e3, h3) = bind-ok (reconstructed obj.frame) _ h2 in
      check_frame-consistent l h i obj.record_id g f h3

  parse_frames-consistent :
      (ls : List Bytes) (h : SegmentHeader) (i : ℕ) (fs : List SpoolFrame)
      → parse_frames load_header load_frame header_line hexdigest ls h i ≡ ok fs
      → (joined fs ≡ join ls) × (length ls ≡ length fs) × (consistent_frames h i fs ≡ ok tt)
  unfolding parse_frames joined join consistent_frames
  parse_frames-consistent [] h i fs e = let same : [] ≡ fs = cc e in rw (← same) (refl, refl, refl)
  parse_frames-consistent (l ∷ ls) h i fs e =
      let (f, e1, h1) =
        bind-ok (parse_frame load_header load_frame header_line hexdigest l h i) _ e in
      let (rest, e2, h2) =
        bind-ok (parse_frames load_header load_frame header_line hexdigest ls h (suc i)) _ h1 in
      let same : f ∷ rest ≡ fs = cc h2 in
      let (line, one) = parse_frame-consistent l h i f e1 in
      let (lines, count, more) = parse_frames-consistent ls h (suc i) rest e2 in
      rw (← same) (
        ap (λ x. x ++ joined rest) line ∙ ap (λ x. l ++ x) lines,
        ap suc count,
        rw (one, more) refl,
      )

  -- All that the reader has made sure of.
  record Sound (content : Bytes) (p : ParsedSegment) : Type 0 where
    whole : header_line p.header ++ joined p.frames ≡ content
    sized : length content ≤ max_segment_file_bytes
    few : length p.frames ≤ max_segment_frames
    counted : p.header.record_count ≡ length p.frames
    consistent : consistent_frames p.header 1 p.frames ≡ ok tt
    digested : text_eq (hexdigest (joined p.frames)) p.header.content_sha256 ≡ true
    byte_size : p.byte_size ≡ length content

  parse-Sound :
      (content : Bytes) (p : ParsedSegment)
      → parse_segment_bytes load_header load_frame header_line hexdigest content ≡ ok p
      → Sound content p
  unfolding parse_segment_bytes
  parse-Sound content p e =
      let (lines, e1, h1) = bind-ok (split_lines content) _ e in
      let (u2, e2, h2) =
        bind-ok (fail_if (ltb max_segment_frames (length lines.1)) count_fault) _ h1 in
      let (header, e3, h3) =
        bind-ok (parse_header load_header load_frame header_line hexdigest lines.0) _ h2 in
      let (frames, e4, h4) =
        bind-ok (parse_frames load_header load_frame header_line hexdigest lines.1 header 1) _ h3 in
      let (u5, e5, h5) =
        bind-ok (fail_if (not (length frames == header.record_count)) count_fault) _ h4 in
      let (u6, e6, h6) =
        bind-ok
          (fail_if (not (text_eq (hexdigest (join lines.1)) header.content_sha256)) digest_fault) _
          h5 in
      let same : parsed load_header load_frame header_line hexdigest content header frames ≡ p =
        cc h6 in
      let (all_of_it, sized) = split_lines-whole content {l = lines.0} {rest = lines.1} e1 in
      let line = parse_header-line lines.0 header e3 in
      let (joined_lines, count, consistent) = parse_frames-consistent lines.1 header 1 frames e4 in
      let few = fail_if-ok (ltb max_segment_frames (length lines.1)) count_fault {u = u2} e2 in
      let counted =
        fail_if-ok (not (length frames == header.record_count)) count_fault {u = u5} e5 in
      let digest =
        fail_if-ok (not (text_eq (hexdigest (join lines.1)) header.content_sha256)) digest_fault
          {u = u6} e6 in
      rw (← same) (record {
        whole =
            ap (λ x. x ++ joined frames) line ∙ (ap (λ x. lines.0 ++ x) joined_lines ∙ all_of_it);
        sized = sized;
        few = ground (arith, few, count);
        counted = ground (arith, counted);
        consistent = consistent;
        digested = rw joined_lines (ground (arith, digest));
        byte_size = refl;
      })

  -- A segment that `parse_segment_bytes` accepts is within its bounds: at most 64 MiB of bytes, which
  -- are the bytes that were read, and at most 1,000,000 frames, exactly as many as its header says.
  pub parse-bounds :
      (content : Bytes) (p : ParsedSegment)
      → parse_segment_bytes load_header load_frame header_line hexdigest content ≡ ok p
      → (p.byte_size ≡ length content)
        × (p.byte_size ≤ 67108864)
        × (length p.frames ≤ 1000000)
        × (p.header.record_count ≡ length p.frames)
  parse-bounds content p e =
      let s = parse-Sound content p e in
      (s.byte_size, omega (arith, s.byte_size, s.sized), s.few, s.counted)

  -- Only canonical bytes are accepted: if `parse_segment_bytes` accepts a content, then
  -- `build_segment_bytes` of the header and the frames it found gives that content, byte for byte.
  pub build-parse :
      (content : Bytes) (p : ParsedSegment)
      → parse_segment_bytes load_header load_frame header_line hexdigest content ≡ ok p
      → build_segment_bytes header_line hexdigest p.header p.frames ≡ ok content
  unfolding build_segment_bytes validate_consistency
  build-parse content p e =
      let s = parse-Sound content p e in
      let size = length-append (header_line p.header) (joined p.frames) in
      let within =
        fits-within_size (length (header_line p.header)) p.frames
          (rw (← size) (rw s.whole s.sized)) in
      rw (s.consistent, within, s.digested, s.whole) (ground (arith, s.few, s.counted))
