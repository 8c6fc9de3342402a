-- ===== src/Conversation/Types.antt =====
-- The values that the conversation and session oracles share.
use lean_s.Prelude.{ℕ, Bool, true, false, Option, List, [], ◌∷◌, ◌==◌, if◌then◌else◌}
use lean_s.Bytes.{Bytes}

-- the object {db_number, start, count}
pub record MemoryRange : Type 0 where
  pub db_number : ℕ
  pub start : ℕ
  pub count : ℕ

-- the object {range, item_index, chunk_byte_offset}; `item_index` may be null
pub record Location : Type 0 where
  pub range : MemoryRange
  pub item_index : Option ℕ
  pub chunk_byte_offset : ℕ

pub data Lifecycle : Type 0 where
  connected disconnected closed : Lifecycle

-- KINDS
pub data ErrorKind : Type 0 where
  invalid_input protocol plc_rejected timeout dropped lifecycle transport other : ErrorKind

-- The outcome of an attempted write: `failure` carries the code that the PLC returned.
pub data Outcome : Type 0 where
  pending replayed_unknown global_rejected success : Outcome
  failure : ℕ → Outcome

-- {"location": location, "outcome": outcome}
pub record Attempt : Type 0 where
  pub location : Location
  pub outcome : Outcome

-- the attempts of several locations that end alike
unfoldable pub settle : Outcome → List Location → List Attempt
settle outcome [] = []
settle outcome (l ∷ ls) = record { location = l; outcome = outcome } ∷ settle outcome ls

-- kind in ("timeout", "disconnected", "transport")
unfoldable pub retryable : ErrorKind → Bool
retryable timeout = true
retryable dropped = true
retryable transport = true
retryable _ = false

-- "success" if code == 255 else f"failure:{code}"
unfoldable pub code_outcome : ℕ → Outcome
code_outcome code = if code == 255 then success else failure code

-- The attempts of the pending locations and their codes, which are as many.
unfoldable pub settle_codes : List Location → Bytes → List Attempt
settle_codes (l ∷ ls) (code ∷ codes) =
    record { location = l; outcome = code_outcome code } ∷ settle_codes ls codes
settle_codes [] codes = []
settle_codes ls codes = []
