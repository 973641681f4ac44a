-- ===== src/Outbox/Rotation.antt =====
-- `_read_from_start` of src/milhouse/outbox/reader.py: the first read, over the rotated files that are
-- retained and the active one. What `_discover_rotations` finds is an argument: nothing when there is
-- no rotation glob, the code of a loss, or the rotated files by their sequences.
pub mod Chain
use milhouse_oss.Prelude.{
  ℕ, suc, ◌+◌, ◌-◌, Bool, true, false, not, ◌&&◌, ◌||◌, Option, none, some, List, [], ◌∷◌, ◌++◌,
  map, ◌⊎◌, inl, inr, length, ltb, leb, ◌==◌, any, if◌then◌else◌, Text, codes,
}
use milhouse_oss.Outbox.Lines.{Bytes, lf, take, complete_end}
use milhouse_oss.Outbox.Reader.{
  OutboxReaderConfig, FileRead, Parsed, nothing_parsed, OutboxReadResult, loss, success,
  parse_region, read_same_file,
}

-- `content.endswith(LF)`
unfoldable pub ends_with_lf : Bytes → Bool
ends_with_lf [] = false
ends_with_lf (b ∷ []) = b == lf
ends_with_lf (b ∷ c ∷ s) = ends_with_lf (c ∷ s)

-- `_has_torn_tail`
unfoldable pub has_torn_tail : Bytes → Bool
unfolding ends_with_lf
has_torn_tail [] = false
has_torn_tail (b ∷ s) = not (ends_with_lf (b ∷ s))

-- A rotated file and its sequence.
abbrev pub Rotated : Type 0
Rotated = ℕ × FileRead

-- `sorted(by_sequence)`
unfoldable pub insert : Rotated → List Rotated → List Rotated
insert r [] = r ∷ []
insert r (x ∷ xs) = let rest = insert r xs in if leb r.0 x.0 then r ∷ x ∷ xs else x ∷ rest

unfoldable pub in_order : List Rotated → List Rotated
unfolding insert
in_order [] = []
in_order (r ∷ rs) = insert r (in_order rs)

-- `rotated == list(range(first, first + len(rotated)))`
unfoldable pub is_run : ℕ → List Rotated → Bool
is_run n [] = true
is_run n (r ∷ rs) = (r.0 == n) && is_run (suc n) rs

-- `max(by_sequence)`
unfoldable pub highest : ℕ → List Rotated → ℕ
highest n [] = n
highest n (r ∷ rs) = let rest = highest n rs in if ltb rest r.0 then r.0 else rest

unfoldable pub first_sequence : List Rotated → ℕ
first_sequence [] = 0
first_sequence (r ∷ rs) = r.0

unfoldable pub bytes_of : List Rotated → ℕ
bytes_of [] = 0
bytes_of (r ∷ rs) = length r.1.content + bytes_of rs

abbrev pub is_torn : Rotated → Bool
is_torn r = has_torn_tail r.1.content

module _ (Frame : Type 0) (producer_id : Frame → Text) (parse : Bytes → Text ⊎ Frame)
    (sha256_hex : Bytes → Text) (config : OutboxReaderConfig) where
  -- `_loss_no_cursor`
  unfoldable pub loss_no_cursor : FileRead → Text → Option ℕ → OutboxReadResult Frame
  loss_no_cursor active code max_observed =
      loss code
        (record {
          device = active.device;
          inode = active.inode;
          offset = 0;
          content_sha256 = sha256_hex [];
        })
        none none max_observed

  -- Each region from its own file's start.
  unfoldable pub parse_files : List Rotated → Parsed Frame → Parsed Frame
  parse_files [] into = into
  parse_files (r ∷ rs) into =
      parse_files rs (parse_region Frame producer_id parse sha256_hex config r.1.content into 0)

  unfoldable pub read_chain : FileRead → List Rotated → ℕ → OutboxReadResult Frame
  read_chain active rotated max_observed =
      let last : ℕ = complete_end active.content in
      success
        (parse_region Frame producer_id parse sha256_hex config (take last active.content)
          (parse_files rotated nothing_parsed) 0)
        (record {
          device = active.device;
          inode = active.inode;
          offset = last;
          content_sha256 = sha256_hex (take last active.content);
        })
        (bytes_of rotated + last) (length rotated) (length active.content - last)
        (some max_observed)

  unfoldable pub read_from_start : FileRead → Option (Text ⊎ List Rotated) → OutboxReadResult Frame
  unfolding loss_no_cursor in_order is_run highest first_sequence
  read_from_start active none = read_same_file Frame producer_id parse sha256_hex config active none
  read_from_start active (some (inl code)) = loss_no_cursor active code none
  read_from_start active (some (inr [])) =
      read_same_file Frame producer_id parse sha256_hex config active none
  read_from_start active (some (inr (r ∷ rs))) =
      let rotated : List Rotated = in_order (r ∷ rs) in
      let max_observed : ℕ = highest 0 (r ∷ rs) in
      if not (is_run (first_sequence rotated) rotated)
      then loss_no_cursor active (codes "MH_OUTBOX_LOSS_ROTATION_GONE") (some max_observed)
      else if any is_torn rotated
      then loss_no_cursor active (codes "MH_OUTBOX_LOSS_ROTATED_TORN") (some max_observed)
      else read_chain active rotated max_observed
