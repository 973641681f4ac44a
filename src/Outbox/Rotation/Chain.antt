-- ===== src/Outbox/Rotation/Chain.antt =====
-- A chain of rotated files reads like one file.
use milhouse_oss.Prelude.{
  ℕ, suc, ◌+◌, ◌≡◌, ◌≢◌, refl, sym, ap, ◌∙◌, ◌⊎◌, inl, inr, none, some, List, [], ◌∷◌, ◌++◌, arith,
  length, length-append, any, false, Bool-cases, Text,
}
use mathlib.Core.List.{append_assoc}
use milhouse_oss.Outbox.Lines.{
  Bytes, take, complete_end, iter_complete_lines, IsComplete, lines-append,
}
use milhouse_oss.Outbox.Reader.{
  OutboxReaderConfig, FileRead, Parsed, nothing_parsed, success, loss, without_last, parsed_line,
  parse_line, parse_lines, parse_region, read_same_file,
}
use milhouse_oss.Outbox.Reader.Resume.{read_start}
use milhouse_oss.Outbox.Rotation.{
  ends_with_lf, has_torn_tail, Rotated, is_torn, bytes_of, in_order, is_run, highest,
  first_sequence, parse_files, read_chain, read_from_start,
}

whole-IsComplete : (s : Bytes) → has_torn_tail s ≡ false → IsComplete s
unfolding has_torn_tail ends_with_lf
whole-IsComplete [] h = tt
whole-IsComplete (b ∷ []) h = ground arith
whole-IsComplete (b ∷ c ∷ s) h = whole-IsComplete (c ∷ s) h

-- The bytes of the rotated files, one after another.
unfoldable pub contents : List Rotated → Bytes
contents [] = []
contents (r ∷ rs) = r.1.content ++ contents rs

take_all : (r : Bytes) (n : ℕ) (s : Bytes) → take (length r + n) (r ++ s) ≡ r ++ take n s
unfolding take
take_all [] n s = let e : 0 + n ≡ n = omega arith in rw e refl
take_all (b ∷ r) n s =
    let e : suc (length r) + n ≡ suc (length r + n) = omega arith in
    rw e (ap (λ t. b ∷ t) (take_all r n s))

append-IsComplete : (r s : Bytes) → IsComplete r → IsComplete s → IsComplete (r ++ s)
append-IsComplete [] s h k = k
append-IsComplete (b ∷ []) [] h k = h
append-IsComplete (b ∷ []) (c ∷ s) h k = k
append-IsComplete (b ∷ c ∷ r) s h k = append-IsComplete (c ∷ r) s h k

complete_end-append :
    (r s : Bytes) → IsComplete r → complete_end (r ++ s) ≡ length r + complete_end s
unfolding complete_end
complete_end-append [] s h = omega arith
complete_end-append (b ∷ []) s h = ground arith
complete_end-append (b ∷ c ∷ r) s h = ground (arith, complete_end-append (c ∷ r) s h)

length-contents : (rs : List Rotated) → length (contents rs) ≡ bytes_of rs
unfolding contents bytes_of
length-contents [] = refl
length-contents (r ∷ rs) =
    omega (arith, length-append r.1.content (contents rs), length-contents rs)

contents-IsComplete : (rs : List Rotated) → any is_torn rs ≡ false → IsComplete (contents rs)
unfolding contents
contents-IsComplete [] h = tt
contents-IsComplete (r ∷ rs) h =
    append-IsComplete r.1.content (contents rs) (whole-IsComplete r.1.content (ground arith))
      (contents-IsComplete rs (ground arith))

module _ (Frame : Type 0) (producer_id : Frame → Text) (parse : Bytes → Text ⊎ Frame)
    (sha256_hex : Bytes → Text) (config : OutboxReaderConfig) where
  abbrev lines_at : ℕ → List Bytes → Parsed Frame → Parsed Frame
  lines_at = parse_lines Frame producer_id parse sha256_hex config

  abbrev files : List Rotated → Parsed Frame → Parsed Frame
  files = parse_files Frame producer_id parse sha256_hex config

  parsed_same :
      (o o' : ℕ) (r : Text ⊎ Frame) (p q : Parsed Frame)
      → p.frames ≡ q.frames
      → (parsed_line Frame producer_id parse sha256_hex config o r p).frames
        ≡ (parsed_line Frame producer_id parse sha256_hex config o' r q).frames
  unfolding parsed_line
  parsed_same o o' (inl c) p q h = h
  parsed_same o o' (inr f) p q h = ground (arith, h)

  line_same :
      (o o' : ℕ) (l : Bytes) (p q : Parsed Frame)
      → p.frames ≡ q.frames
      → (parse_line Frame producer_id parse sha256_hex config o l p).frames
        ≡ (parse_line Frame producer_id parse sha256_hex config o' l q).frames
  unfolding parse_line
  line_same o o' l p q h = ground (arith, h, parsed_same o o' (parse (without_last l)) p q h)

  -- The frames of lines do not depend on where the lines stand.
  lines_same :
      (o o' : ℕ) (ls : List Bytes) (p q : Parsed Frame)
      → p.frames ≡ q.frames
      → (lines_at o ls p).frames ≡ (lines_at o' ls q).frames
  unfolding parse_lines
  lines_same o o' [] p q h = h
  lines_same o o' (l ∷ ls) p q h =
      lines_same (o + length l) (o' + length l) ls _ _ (line_same o o' l p q h)

  lines_split :
      (o o' i : ℕ) (xs ys : List Bytes) (p q : Parsed Frame)
      → p.frames ≡ q.frames
      → (lines_at o (xs ++ ys) p).frames ≡ (lines_at o' ys (lines_at i xs q)).frames
  unfolding parse_lines
  lines_split o o' i [] ys p q h = lines_same o o' ys p q h
  lines_split o o' i (x ∷ xs) ys p q h =
      lines_split (o + length x) o' (i + length x) xs ys _ _ (line_same o i x p q h)

  chain_frames :
      (rs : List Rotated) (s : Bytes) (o : ℕ) (p : Parsed Frame)
      → any is_torn rs ≡ false
      → (lines_at o (iter_complete_lines (contents rs ++ s)) p).frames
        ≡ (lines_at 0 (iter_complete_lines s) (files rs p)).frames
  unfolding contents parse_files parse_region
  chain_frames [] s o p h = lines_same o 0 (iter_complete_lines s) p p refl
  chain_frames (r ∷ rs) s o p h =
      let assoc = append_assoc r.1.content (contents rs) s in
      let cut =
        lines-append r.1.content (contents rs ++ s) (whole-IsComplete r.1.content (ground arith)) in
      ap (λ ls. (lines_at o ls p).frames) (ap iter_complete_lines assoc ∙ cut)
      ∙ (lines_split o 0 0 (iter_complete_lines r.1.content)
            (iter_complete_lines (contents rs ++ s)) p p refl
          ∙ chain_frames rs s 0 (lines_at 0 (iter_complete_lines r.1.content) p) (ground arith))

  -- The active file with the rotated ones before it, as one file.
  abbrev pub as_one : FileRead → List Rotated → FileRead
  as_one active rs = record active { content = contents rs ++ active.content }

  read_chain_lem :
      (active : FileRead) (rs : List Rotated) (m : ℕ)
      → any is_torn rs ≡ false
      → let chain = read_chain Frame producer_id parse sha256_hex config active rs m in
        let whole =
          read_same_file Frame producer_id parse sha256_hex config (as_one active rs) none in
        (chain.new_frames ≡ whole.new_frames)
        × (chain.diagnostics.bytes_consumed ≡ whole.diagnostics.bytes_consumed)
        × (chain.diagnostics.torn_tail_bytes ≡ whole.diagnostics.torn_tail_bytes)
  unfolding read_chain parse_region success
  read_chain_lem active rs m h =
      let e = complete_end-append (contents rs) active.content (contents-IsComplete rs h) in
      let f = take_all (contents rs) (complete_end active.content) active.content in
      let n = length-append (contents rs) active.content in
      rw (read_start Frame producer_id parse sha256_hex config (as_one active rs), e, f)
        (
          sym (
              chain_frames rs (take (complete_end active.content) active.content) 0 nothing_parsed
                h),
          omega (arith, length-contents rs),
          omega (arith, n),
        )

  -- A first read that finds rotated files either reports a loss and emits no frame, or emits the
  -- frames, consumes the bytes and leaves the torn tail that the read of one file would whose content
  -- is that of the rotated files, in the order of their sequences, and then of the active file.
  pub read_from_start_lem :
      (active : FileRead) (r : Rotated) (rs : List Rotated)
      → let chain =
          read_from_start Frame producer_id parse sha256_hex config active (some (inr (r ∷ rs))) in
        let whole =
          read_same_file Frame producer_id parse sha256_hex config
            (as_one active (in_order (r ∷ rs)))
            none in
        ((chain.loss_signal ≢ none) × (chain.new_frames ≡ []))
        ⊎ ((chain.loss_signal ≡ none)
            × (chain.new_frames ≡ whole.new_frames)
            × (chain.diagnostics.bytes_consumed ≡ whole.diagnostics.bytes_consumed)
            × (chain.diagnostics.torn_tail_bytes ≡ whole.diagnostics.torn_tail_bytes))
  unfolding read_from_start loss success read_chain
  read_from_start_lem active r rs =
      let rotated = in_order (r ∷ rs) in
      elim (Bool-cases (is_run (first_sequence rotated) rotated)) [
        | inr gap ↦ inl (rw gap ((λ h. cc h), refl))
        | inl contiguous ↦ elim (Bool-cases (any is_torn rotated)) [
          | inl torn ↦ inl (rw (contiguous, torn) ((λ h. cc h), refl))
          | inr sound ↦
              let (f, b, t) = read_chain_lem active rotated (highest 0 (r ∷ rs)) sound in
              inr (rw (contiguous, sound) (refl, f, b, t))
        ]
      ]
