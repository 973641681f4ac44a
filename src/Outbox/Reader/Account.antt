-- ===== src/Outbox/Reader/Account.antt =====
-- The two ends of a read from a position.
use milhouse_oss.Prelude.{
  ◌+◌, ◌≡◌, ◌≤◌, refl, ◌⊎◌, inl, inr, none, some, [], arith, length, Text, text_eq_iff, text_eq,
  ◌≢◌, ◌<◌, Bool-cases, ltb→lt, ltb,
}
use milhouse_oss.Outbox.Lines.{Bytes, take}
use milhouse_oss.Outbox.Ends.{complete_end-bound}
use milhouse_oss.Outbox.Reader.{
  OutboxLossSignal, OutboxReaderConfig, OutboxPosition, FileRead, success, loss, read_region,
  read_same_file,
}

module _ (Frame : Type 0) (producer_id : Frame → Text) (parse : Bytes → Text ⊎ Frame)
    (sha256_hex : Bytes → Text) (config : OutboxReaderConfig) where
  -- The prefix that a position vouches for is no longer in the file.
  abbrev pub IsChanged : FileRead → OutboxPosition → Type 0
  IsChanged a p =
      (length a.content < p.offset) ⊎ (sha256_hex (take p.offset a.content) ≢ p.content_sha256)

  -- A read from a position has one of two ends. If the file is shorter than the position or its
  -- prefix has another hash, there is a loss signal that holds the position, no frame, and the
  -- position stays. Otherwise the file holds that many bytes and they have the hash of
  -- the position, there is no signal, the position does not move back, and the bytes before it, those
  -- consumed and those of the torn tail make up the file.
  pub read_same_file-Accounted :
      (a : FileRead) (p : OutboxPosition)
      → let r = read_same_file Frame producer_id parse sha256_hex config a (some p) in
        (IsChanged a p
          × ((l : OutboxLossSignal) × (r.loss_signal ≡ some l) × (l.cursor ≡ p))
          × (r.new_frames ≡ [])
          × (r.next_position ≡ p))
        ⊎ ((p.offset ≤ length a.content)
            × (sha256_hex (take p.offset a.content) ≡ p.content_sha256)
            × (r.loss_signal ≡ none)
            × (p.offset ≤ r.next_position.offset)
            × (p.offset + r.diagnostics.bytes_consumed ≡ r.next_position.offset)
            × (r.next_position.offset + r.diagnostics.torn_tail_bytes ≡ length a.content))
  unfolding read_same_file loss success read_region
  read_same_file-Accounted a p = elim (Bool-cases (ltb (length a.content) p.offset)) [
    | inl short ↦ inl (
      inl (ltb→lt (length a.content) p.offset short),
      rw short (_, refl, refl),
      rw short refl,
      rw short refl,
    )
    | inr long ↦
        elim (Bool-cases (text_eq (sha256_hex (take p.offset a.content)) p.content_sha256)) [
          | inl same ↦ inr (
              ground (
                arith,
                complete_end-bound a.content,
                text_eq_iff (sha256_hex (take p.offset a.content)) p.content_sha256,
              ))
          | inr other ↦ inl (
            inr (
                ground
                  (arith, text_eq_iff (sha256_hex (take p.offset a.content)) p.content_sha256)),
            rw (long, other) (_, refl, refl),
            rw (long, other) refl,
            rw (long, other) refl,
          )
        ]
  ]
