-- ===== src/Sequence/Request.antt =====
-- `check_request` of integration/sequence_conformance.py: a multi-item request against its ranges.
use lean_s.Prelude.{
  ℕ, ◌+◌, ◌*◌, ◌%◌, Bool, not, ◌&&◌, ◌||◌, List, [], ◌∷◌, ◌++◌, ◌==◌, if◌then◌else◌, length, take,
  slice,
}
use lean_s.Error.{Result, ok, value_error, ◌>>=◌, ◌>>◌, raise_if}
use lean_s.Bytes.{Bytes, equal, pack_word, to_bytes_3}
use lean_s.Conversation.Types.{MemoryRange}
use lean_s.Sequence.Sections.{sections}

-- the address that the oracle expects of one range
unfoldable pub expected_address : MemoryRange → Result Bytes
expected_address item = do
  count ← pack_word item.count
  db_number ← pack_word item.db_number
  bits ← to_bytes_3 (item.start * 8)
  ok (0x12 ∷ 0x0a ∷ 0x10 ∷ 0x02 ∷ (count ++ (db_number ++ (0x84 ∷ bits))))

-- the loop over the addresses, from an index on
unfoldable pub check_addresses : Bytes → ℕ → List MemoryRange → Result (Unit {0})
check_addresses parameters index [] = ok tt
check_addresses parameters index (item ∷ ranges) = do
  let address = slice (2 + index * 12) (14 + index * 12) parameters
  expected ← expected_address item
  raise_if (not (equal address expected)) value_error
  check_addresses parameters (index + 1) ranges

-- The loop over the headers of the items to write; it returns the final offset.
unfoldable pub check_write_items : Bytes → ℕ → List MemoryRange → Result ℕ
check_write_items payload offset [] = ok offset
check_write_items payload offset (item ∷ ranges) = do
  let size = item.count
  bits ← pack_word (size * 8)
  raise_if (not (equal (slice offset (offset + 4) payload) (0 ∷ 4 ∷ bits))) value_error
  let next = offset + (4 + size)
  check_write_items payload (if not (length ranges == 0) && size % 2 == 1 then next + 1 else next)
      ranges

unfoldable pub check_request : Bytes → ℕ → Bool → List MemoryRange → Result (Unit {0})
check_request request_pdu reference write ranges = do
  split ← sections request_pdu 1 reference
  let parameters = split.0
  let payload = split.1
  let function : ℕ = if write then 5 else 4
  raise_if
      (not (equal (take 2 parameters) (function ∷ length ranges ∷ []))
        || not (length parameters == 2 + 12 * length ranges))
      value_error
  check_addresses parameters 0 ranges
  if write
      then (do
        offset ← check_write_items payload 0 ranges
        raise_if (not (offset == length payload)) value_error)
      else raise_if (not (length payload == 0)) value_error
