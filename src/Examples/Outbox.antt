-- ===== src/Examples/Outbox.antt =====
-- outbox/reader.py at a file of two complete lines and a torn one that is completed later.
use milhouse_oss.Outbox.Rotation.{
  has_torn_tail, read_chain, parse_files, Rotated, in_order, read_from_start,
}
use milhouse_oss.Outbox.Rotation.Chain.{as_one, read_from_start_lem}
use milhouse_oss.Prelude.{
  refl, ◌≢◌, ◌≡◌, ◌⊎◌, ◌≤◌, ◌+◌, inl, inr, Option, some, none, [], ◌∷◌, ◌++◌, Text, codes, length,
}
use milhouse_oss.Outbox.Lines.{take, complete_end, iter_complete_lines, Bytes}
use milhouse_oss.Outbox.Reader.{
  success, parse_region, parse_lines, parse_line, without_last, FileRead, OutboxReaderConfig,
  OutboxPosition, OutboxLossSignal, OutboxReadResult, read_same_file,
}
use milhouse_oss.Outbox.Reader.Resume.{resume_lem}
use milhouse_oss.Outbox.Reader.Account.{IsChanged, read_same_file-Accounted}

-- A frame is its payload; an empty payload is refused.
abbrev parse : Bytes → Text ⊎ Bytes
parse [] = inl (codes "MH_OUTBOX_FRAME")
parse (b ∷ s) = inr (b ∷ s)

abbrev producer_id : Bytes → Text
producer_id s = codes "producer"

abbrev sha256_hex : Bytes → Text
sha256_hex s = s

abbrev config : OutboxReaderConfig
config = record { max_line_bytes = 64; producer_allowlist = [] }

abbrev content : Bytes
content = codes "one\n\ntw"

abbrev more : Bytes
more = codes "o\nthree\n"

abbrev read : Bytes → Option OutboxPosition → OutboxReadResult Bytes
read s =
    read_same_file Bytes producer_id parse sha256_hex config
      (record { device = 1; inode = 7; content = s })

resume_lem_example :
    ((read (content ++ more) (some (read content none).next_position)).loss_signal ≡ none)
    × ((read (content ++ more) none).new_frames
        ≡ (read content none).new_frames
          ++ (read (content ++ more) (some (read content none).next_position)).new_frames)
    × ((read (content ++ more) none).frame_offsets
        ≡ (read content none).frame_offsets
          ++ (read (content ++ more) (some (read content none).next_position)).frame_offsets)
    × ((read (content ++ more) none).next_position
        ≡ (read (content ++ more) (some (read content none).next_position)).next_position)
resume_lem_example = resume_lem Bytes producer_id parse sha256_hex config 1 7 content more

abbrev lost : OutboxPosition
lost = record { device = 1; inode = 7; offset = 50; content_sha256 = codes "x" }

read_same_file-Accounted_example :
    (IsChanged Bytes producer_id parse sha256_hex config
        (record { device = 1; inode = 7; content = content })
        lost
      × ((l : OutboxLossSignal) × ((read content (some lost)).loss_signal ≡ some l)
          × (l.cursor ≡ lost))
      × ((read content (some lost)).new_frames ≡ [])
      × ((read content (some lost)).next_position ≡ lost))
    ⊎ ((lost.offset ≤ length content)
        × (sha256_hex (take lost.offset content) ≡ lost.content_sha256)
        × ((read content (some lost)).loss_signal ≡ none)
        × (lost.offset ≤ (read content (some lost)).next_position.offset)
        × (lost.offset + (read content (some lost)).diagnostics.bytes_consumed
            ≡ (read content (some lost)).next_position.offset)
        × ((read content (some lost)).next_position.offset
              + (read content (some lost)).diagnostics.torn_tail_bytes
            ≡ length content))
read_same_file-Accounted_example =
    read_same_file-Accounted Bytes producer_id parse sha256_hex config
      (record { device = 1; inode = 7; content = content }) lost

abbrev active : FileRead
active = record { device = 1; inode = 9; content = content }

abbrev older : Rotated
older = (3, record { device = 1; inode = 7; content = codes "zero\n" })

abbrev newer : Rotated
newer = (4, record { device = 1; inode = 8; content = codes "half\n" })

abbrev chain : OutboxReadResult Bytes
chain =
    read_from_start Bytes producer_id parse sha256_hex config active
      (some (inr (newer ∷ older ∷ [])))

abbrev whole : OutboxReadResult Bytes
whole =
    read_same_file Bytes producer_id parse sha256_hex config
      (as_one Bytes producer_id parse sha256_hex config active (in_order (newer ∷ older ∷ []))) none

read_from_start_lem_example :
    ((chain.loss_signal ≢ none) × (chain.new_frames ≡ []))
    ⊎ ((chain.loss_signal ≡ none)
        × (chain.new_frames ≡ whole.new_frames)
        × (chain.diagnostics.bytes_consumed ≡ whole.diagnostics.bytes_consumed)
        × (chain.diagnostics.torn_tail_bytes ≡ whole.diagnostics.torn_tail_bytes))
read_from_start_lem_example =
    read_from_start_lem Bytes producer_id parse sha256_hex config active newer (older ∷ [])

-- The chain is read in the order of its sequences.
chain_read : chain.new_frames ≡ codes "zero" ∷ codes "half" ∷ codes "one" ∷ []
unfolding read_from_start has_torn_tail read_chain success parse_region parse_lines
    iter_complete_lines take complete_end parse_line without_last parse_files
chain_read = refl
