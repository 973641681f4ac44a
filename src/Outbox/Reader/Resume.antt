-- ===== src/Outbox/Reader/Resume.antt =====
-- Reading a file in portions, as it grows, against reading it once.
use milhouse_oss.Prelude.{
  ℕ, ◌+◌, ◌≡◌, ◌≤◌, refl, sym, ap, ◌∙◌, ◌⊎◌, inl, inr, Option, none, some, List, [], ◌∷◌, ◌++◌,
  arith, length, length-append, Text, text_eq_iff, ltb, if◌then◌else◌, ◌-◌,
}
use mathlib.Core.List.{append_assoc, append-nil}
use milhouse_oss.Outbox.Lines.{
  Bytes, take, drop, complete_end, iter_complete_lines, join, lines-append, join-lines,
}
use milhouse_oss.Outbox.Ends.{
  complete_end-bound, complete_end-grows, complete_end-IsComplete, take-append, take-take,
  take-drop, length-take,
}
use milhouse_oss.Outbox.Reader.{
  OutboxReaderConfig, OutboxPosition, FileRead, Parsed, nothing_parsed, OutboxReadResult, success,
  without_last, parsed_line, parse_line, parse_lines, parse_region, read_region, read_same_file,
}

module _ (Frame : Type 0) (producer_id : Frame → Text) (parse : Bytes → Text ⊎ Frame)
    (sha256_hex : Bytes → Text) (config : OutboxReaderConfig) where
  abbrev pub lines_from : ℕ → List Bytes → Parsed Frame → Parsed Frame
  lines_from = parse_lines Frame producer_id parse sha256_hex config

  abbrev line_at : ℕ → Bytes → Parsed Frame → Parsed Frame
  line_at = parse_line Frame producer_id parse sha256_hex config

  abbrev Extends : Parsed Frame → Parsed Frame → Parsed Frame → Type 0
  Extends into fresh p =
      (p.frames ≡ into.frames ++ fresh.frames) × (p.offsets ≡ into.offsets ++ fresh.offsets)

  parsed-Extends :
      (o : ℕ) (r : Text ⊎ Frame) (into : Parsed Frame)
      → Extends into
          (parsed_line Frame producer_id parse sha256_hex config o r nothing_parsed)
          (parsed_line Frame producer_id parse sha256_hex config o r into)
  unfolding parsed_line
  parsed-Extends o (inl code) into = (sym (append-nil into.frames), sym (append-nil into.offsets))
  parsed-Extends o (inr frame) into =
      ground (arith, append-nil into.frames, append-nil into.offsets)

  line_at-Extends :
      (o : ℕ) (line : Bytes) (into : Parsed Frame)
      → Extends into (line_at o line nothing_parsed) (line_at o line into)
  unfolding parse_line
  line_at-Extends o line into = ground (
    arith,
    append-nil into.frames,
    append-nil into.offsets,
    parsed-Extends o (parse (without_last line)) into,
  )

  lines_from-Extends :
      (o : ℕ) (ls : List Bytes) (into : Parsed Frame)
      → Extends into (lines_from o ls nothing_parsed) (lines_from o ls into)
  unfolding parse_lines
  lines_from-Extends o [] into = (sym (append-nil into.frames), sym (append-nil into.offsets))
  lines_from-Extends o (l ∷ ls) into =
      let first = line_at o l nothing_parsed in
      let rest = lines_from (o + length l) ls nothing_parsed in
      let (f1, o1) = line_at-Extends o l into in
      let (f2, o2) = lines_from-Extends (o + length l) ls (line_at o l into) in
      let (f3, o3) = lines_from-Extends (o + length l) ls first in
      (
        cc (f1, f2, f3, append_assoc into.frames first.frames rest.frames),
        cc (o1, o2, o3, append_assoc into.offsets first.offsets rest.offsets),
      )

  lines_from-append :
      (o : ℕ) (xs ys : List Bytes) (into : Parsed Frame)
      → lines_from o (xs ++ ys) into ≡ lines_from (o + length (join xs)) ys (lines_from o xs into)
  unfolding parse_lines join
  lines_from-append o [] ys into = ap (λ k. lines_from k ys into) (omega arith)
  lines_from-append o (x ∷ xs) ys into =
      lines_from-append (o + length x) xs ys (line_at o x into)
      ∙ ap (λ k. lines_from k ys (lines_from (o + length x) xs (line_at o x into)))
          (omega (arith, length-append x (join xs)))

  abbrev pub read : FileRead → Option OutboxPosition → OutboxReadResult Frame
  read = read_same_file Frame producer_id parse sha256_hex config

  abbrev pub region_lines : Bytes → ℕ → Parsed Frame
  region_lines s o = lines_from o (iter_complete_lines s) nothing_parsed

  -- The position after the last complete line.
  abbrev pub end_of : FileRead → OutboxPosition
  end_of a = record {
    device = a.device;
    inode = a.inode;
    offset = complete_end a.content;
    content_sha256 = sha256_hex (take (complete_end a.content) a.content);
  }

  drop_none : (s : Bytes) → drop 0 s ≡ s
  unfolding drop
  drop_none s = refl

  end_from : (start last : ℕ) → start ≤ last → (if ltb last start then start else last) ≡ last
  end_from start last h = ground arith

  -- A read from a position at or before the last complete line.
  read_from :
      (a : FileRead) (start : ℕ)
      → start ≤ complete_end a.content
      → read_region Frame producer_id parse sha256_hex config a start
        ≡ success
            (region_lines (drop start (take (complete_end a.content) a.content)) start)
            (end_of a)
            (complete_end a.content - start)
            0
            (length a.content - complete_end a.content)
            none
  unfolding read_region parse_region
  read_from a start h = rw (end_from start (complete_end a.content) h) refl

  pub read_start :
      (a : FileRead)
      → read a none
        ≡ success
            (region_lines (take (complete_end a.content) a.content) 0)
            (end_of a)
            (complete_end a.content - 0)
            0
            (length a.content - complete_end a.content)
            none
  unfolding read_same_file
  read_start a =
      rw (drop_none (take (complete_end a.content) a.content)) at (read_from a 0 (omega arith))

  read_on :
      (a : FileRead) (p : OutboxPosition)
      → p.offset ≤ complete_end a.content
      → p.content_sha256 ≡ sha256_hex (take p.offset a.content)
      → read a (some p) ≡ read_region Frame producer_id parse sha256_hex config a p.offset
  unfolding read_same_file
  read_on a p h e = ground (
    arith,
    complete_end-bound a.content,
    text_eq_iff (sha256_hex (take p.offset a.content)) p.content_sha256,
  )

  -- Both portions of a file, and the whole.
  module _ (device inode : ℕ) (content more : Bytes) where
    abbrev file : Bytes → FileRead
    file s = record { device = device; inode = inode; content = s }

    abbrev grown : Bytes
    grown = content ++ more

    abbrev first_end : ℕ
    first_end = complete_end content

    bound : first_end ≤ length content
    bound = complete_end-bound content

    same_prefix : take first_end grown ≡ take first_end content
    same_prefix = take-append first_end content more bound

    -- The complete part of the grown file, in its two portions.
    portions :
        take (complete_end grown) grown
        ≡ take first_end content ++ drop first_end (take (complete_end grown) grown)
    portions =
        sym (take-drop first_end (take (complete_end grown) grown))
        ∙ ap (λ s. s ++ drop first_end (take (complete_end grown) grown))
            (take-take first_end (complete_end grown) grown (complete_end-grows content more)
              ∙ same_prefix)

    abbrev region : Bytes
    region = drop first_end (take (complete_end grown) grown)

    whole_lines :
        iter_complete_lines (take (complete_end grown) grown)
        ≡ iter_complete_lines (take first_end content) ++ iter_complete_lines region
    whole_lines =
        ap iter_complete_lines portions
        ∙ lines-append (take first_end content) region (complete_end-IsComplete content)

    first_length : length (join (iter_complete_lines (take first_end content))) ≡ first_end
    first_length =
        ap length (join-lines (take first_end content) (complete_end-IsComplete content))
        ∙ length-take first_end content bound

    whole_parsed :
        lines_from 0 (iter_complete_lines (take (complete_end grown) grown)) nothing_parsed
        ≡ lines_from first_end
            (iter_complete_lines region)
            (lines_from 0 (iter_complete_lines (take first_end content)) nothing_parsed)
    whole_parsed =
        ap (λ ls. lines_from 0 ls nothing_parsed) whole_lines
        ∙ (lines_from-append 0 (iter_complete_lines (take first_end content))
              (iter_complete_lines region) nothing_parsed
            ∙ ap
                (λ k.
                  lines_from k (iter_complete_lines region)
                    (lines_from 0 (iter_complete_lines (take first_end content)) nothing_parsed))
                (omega (arith, first_length)))

    second_read :
        read (file grown) (some (end_of (file content)))
        ≡ success
            (region_lines region first_end)
            (end_of (file grown))
            (complete_end grown - first_end)
            0
            (length grown - complete_end grown)
            none
    second_read =
        read_on (file grown) (end_of (file content)) (complete_end-grows content more)
          (ap sha256_hex (sym same_prefix))
        ∙ read_from (file grown) first_end (complete_end-grows content more)

    -- When a file has grown, a read from the position that the first read of it returned finds no
    -- loss, and the two reads together emit the frames and offsets that one read of the grown file
    -- from its start emits, in the same order, and end at the same position.
    pub resume_lem :
        let first = read (file content) none in
        let second = read (file grown) (some first.next_position) in
        let whole = read (file grown) none in
        (second.loss_signal ≡ none)
        × (whole.new_frames ≡ first.new_frames ++ second.new_frames)
        × (whole.frame_offsets ≡ first.frame_offsets ++ second.frame_offsets)
        × (whole.next_position ≡ second.next_position)
    unfolding success
    resume_lem =
        let (f, o) =
          lines_from-Extends first_end (iter_complete_lines region)
            (region_lines (take first_end content) 0) in
        rw (read_start (file content), read_start (file grown), second_read)
          (refl, ap (λ p. p.frames) whole_parsed ∙ f, ap (λ p. p.offsets) whole_parsed ∙ o, refl)
