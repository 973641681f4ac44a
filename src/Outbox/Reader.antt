-- ===== src/Outbox/Reader.antt =====
-- src/milhouse/outbox/reader.py: the incremental read of a file that only grows. `Frame` is a parsed
-- frame, `parse` is `parse_outbox_frame_line` (src/milhouse/outbox/frame.py), with the code of its
-- error, `sha256_hex` the hash.
pub mod Resume
pub mod Account
use milhouse_oss.Prelude.{
  ℕ, suc, ◌+◌, ◌-◌, Bool, true, false, not, ◌&&◌, Option, none, some, List, [], ◌∷◌, ◌++◌, ◌⊎◌, inl,
  inr, length, ltb, if◌then◌else◌, Text, codes, text_eq, text_in,
}
use milhouse_oss.Outbox.Lines.{Bytes, take, drop, complete_end, iter_complete_lines}

-- What parsing reads of the configuration.
pub record OutboxReaderConfig : Type 0 where
  pub max_line_bytes : ℕ
  pub producer_allowlist : List Text

-- `OutboxPosition` (src/milhouse/outbox/cursor.py)
pub record OutboxPosition : Type 0 where
  pub device : ℕ
  pub inode : ℕ
  pub offset : ℕ
  pub content_sha256 : Text

-- `_FileRead`
pub record FileRead : Type 0 where
  pub device : ℕ
  pub inode : ℕ
  pub content : Bytes

pub record OutboxLossSignal : Type 0 where
  pub code : Text
  pub cursor : OutboxPosition
  pub observed_size : Option ℕ
  pub observed_sha256 : Option Text

pub record OutboxDiagnostics : Type 0 where
  pub frames_emitted : ℕ
  pub rejected_lines : ℕ
  pub rejected_codes : List (Text × ℕ)
  pub bytes_consumed : ℕ
  pub rotations_crossed : ℕ
  pub torn_tail_bytes : ℕ

-- `_Parsed`
pub record Parsed (Frame : Type 0) : Type 0 where
  pub frames : List Frame
  pub offsets : List ℕ
  pub rejected : List (Text × ℕ)

abbrev pub nothing_parsed : {Frame : Type 0} → Parsed Frame
nothing_parsed = record { frames = []; offsets = []; rejected = [] }

-- The result, without `next_position_string`, the encoding of `next_position`.
pub record OutboxReadResult (Frame : Type 0) : Type 0 where
  pub new_frames : List Frame
  pub next_position : OutboxPosition
  pub loss_signal : Option OutboxLossSignal
  pub diagnostics : OutboxDiagnostics
  pub max_observed_sequence : Option ℕ
  pub frame_offsets : List ℕ

-- `into.rejected[code] += 1`
unfoldable pub bump : Text → List (Text × ℕ) → List (Text × ℕ)
bump code [] = (code, 1) ∷ []
bump code ((c, n) ∷ t) =
    let rest = bump code t in if text_eq c code then (c, suc n) ∷ t else (c, n) ∷ rest

-- `sum(rejected.values())`
unfoldable pub total : List (Text × ℕ) → ℕ
total [] = 0
total ((c, n) ∷ t) = n + total t

-- `line[:-1]`
unfoldable pub without_last : Bytes → Bytes
without_last [] = []
without_last (b ∷ []) = []
without_last (b ∷ c ∷ s) = b ∷ without_last (c ∷ s)

abbrev is_empty {ℓ} : {A : Type ℓ} → List A → Bool
is_empty [] = true
is_empty (a ∷ l) = false

-- `_loss`
unfoldable pub loss :
    {Frame : Type 0}
    → Text
    → OutboxPosition
    → Option ℕ
    → Option Text
    → Option ℕ
    → OutboxReadResult Frame
loss code prior observed_size observed_sha256 max_observed = record {
  new_frames = [];
  next_position = prior;
  loss_signal = some (record {
    code = code;
    cursor = prior;
    observed_size = observed_size;
    observed_sha256 = observed_sha256;
  });
  diagnostics = record {
    frames_emitted = 0;
    rejected_lines = 0;
    rejected_codes = [];
    bytes_consumed = 0;
    rotations_crossed = 0;
    torn_tail_bytes = 0;
  };
  max_observed_sequence = max_observed;
  frame_offsets = [];
}

-- `_success`
unfoldable pub success :
    {Frame : Type 0} → Parsed Frame → OutboxPosition → ℕ → ℕ → ℕ → Option ℕ → OutboxReadResult Frame
success p next bytes_consumed rotations_crossed torn_tail_bytes max_observed = record {
  new_frames = p.frames;
  next_position = next;
  loss_signal = none;
  diagnostics = record {
    frames_emitted = length p.frames;
    rejected_lines = total p.rejected;
    rejected_codes = p.rejected;
    bytes_consumed = bytes_consumed;
    rotations_crossed = rotations_crossed;
    torn_tail_bytes = torn_tail_bytes;
  };
  max_observed_sequence = max_observed;
  frame_offsets = p.offsets;
}

module _ (Frame : Type 0) (producer_id : Frame → Text) (parse : Bytes → Text ⊎ Frame)
    (sha256_hex : Bytes → Text) (config : OutboxReaderConfig) where
  abbrev reject : Text → Parsed Frame → Parsed Frame
  reject code into = record into { rejected = bump code into.rejected }

  abbrev accept : ℕ → Frame → Parsed Frame → Parsed Frame
  accept offset frame into = record into {
    frames = into.frames ++ frame ∷ [];
    offsets = into.offsets ++ offset ∷ [];
  }

  unfoldable pub parsed_line : ℕ → Text ⊎ Frame → Parsed Frame → Parsed Frame
  parsed_line offset (inl code) into = reject code into
  parsed_line offset (inr frame) into =
      if not (is_empty config.producer_allowlist)
        && not (text_in (producer_id frame) config.producer_allowlist)
      then reject (codes "MH_OUTBOX_PRODUCER_DENIED") into
      else accept offset frame into

  -- One line of the loop.
  unfoldable pub parse_line : ℕ → Bytes → Parsed Frame → Parsed Frame
  unfolding parsed_line
  parse_line offset line into =
      if ltb config.max_line_bytes (length line)
      then reject (codes "MH_OUTBOX_LINE_OVERSIZE") into
      else parsed_line offset (parse (without_last line)) into

  unfoldable pub parse_lines : ℕ → List Bytes → Parsed Frame → Parsed Frame
  parse_lines offset [] into = into
  parse_lines offset (line ∷ lines) into =
      parse_lines (offset + length line) lines (parse_line offset line into)

  -- `_parse_region`
  unfoldable pub parse_region : Bytes → Parsed Frame → ℕ → Parsed Frame
  parse_region region into base_offset = parse_lines base_offset (iter_complete_lines region) into

  -- From `start` to the end of the last complete line.
  unfoldable pub read_region : FileRead → ℕ → OutboxReadResult Frame
  read_region active start =
      let last = complete_end active.content in
      let stop : ℕ = if ltb last start then start else last in
      success (parse_region (drop start (take stop active.content)) nothing_parsed start)
        (record {
          device = active.device;
          inode = active.inode;
          offset = stop;
          content_sha256 = sha256_hex (take stop active.content);
        })
        (stop - start) 0 (length active.content - stop) none

  -- `_read_same_file`
  unfoldable pub read_same_file : FileRead → Option OutboxPosition → OutboxReadResult Frame
  read_same_file active none = read_region active 0
  read_same_file active (some prior) =
      if ltb (length active.content) prior.offset
      then loss (codes "MH_OUTBOX_LOSS_TRUNCATED") prior (some (length active.content)) none none
      else (if not (text_eq (sha256_hex (take prior.offset active.content)) prior.content_sha256)
          then loss (codes "MH_OUTBOX_LOSS_REWRITE") prior (some (length active.content))
              (some (sha256_hex (take prior.offset active.content))) none
          else read_region active prior.offset)
