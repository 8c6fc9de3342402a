-- ===== src/Conversation/Wire.antt =====
-- The wire encoder: `address`, `packet`, `payload` and `request`.
use lean_s.Prelude.{
  ℕ, zero, suc, ◌+◌, ◌*◌, ◌%◌, Bool, true, not, ◌&&◌, ◌||◌, Option, none, some, List, [], ◌∷◌, ◌++◌,
  ltb, ◌==◌, if◌then◌else◌, length,
}
use lean_s.Error.{Result, ok, struct_error, ◌>>=◌, ◌>>◌, raise_if}
use lean_s.Bytes.{Bytes, pack_word, to_bytes_3}
use lean_s.Conversation.Types.{MemoryRange}

-- struct.pack(">HHB", count, db_number, 0x84) behind the item prefix, then the bit address
unfoldable pub address : MemoryRange → Result Bytes
address r = do
  count ← pack_word r.count
  db_number ← pack_word r.db_number
  bits ← to_bytes_3 (r.start * 8)
  ok (0x12 ∷ 0x0a ∷ 0x10 ∷ 0x02 ∷ (count ++ (db_number ++ (0x84 ∷ bits))))

-- b"".join(map(address, ranges))
unfoldable pub addresses : List MemoryRange → Result Bytes
addresses [] = ok []
addresses (r ∷ rs) = do head ← address r; tail ← addresses rs; ok (head ++ tail)

-- struct.pack(">BBHHHH", 0x32, kind, 0, reference, …); `B` refuses a kind that is no octet
unfoldable pub packet : ℕ → ℕ → Bytes → Bytes → Result Bytes
packet kind reference parameters payload = do
  raise_if (not (ltb kind 256)) struct_error
  reference_word ← pack_word reference
  parameter_size ← pack_word (length parameters)
  data_size ← pack_word (length payload)
  let error = if kind == 3 then 0 ∷ 0 ∷ [] else []
  ok (
      0x32
      ∷ kind
      ∷ 0
      ∷ 0
      ∷ (reference_word ++ (parameter_size ++ (data_size ++ (error ++ (parameters ++ payload))))))

unfoldable pub payload_from : ℕ → ℕ → ℕ → Bytes
payload_from start index zero = []
payload_from start index (suc n) = (start * 7 + index * 29) % 256 ∷ payload_from start (index + 1) n

-- the octets that the histories write: a function of the range alone
unfoldable pub payload : MemoryRange → Bytes
unfolding payload_from
payload r = payload_from r.start 0 r.count

-- The data section of a write: a header and the content of each item, with one octet of padding
-- behind every odd content but the last.
unfoldable pub write_data : List MemoryRange → Result Bytes
write_data [] = ok []
write_data (r ∷ rs) = do
  let content = payload r
  size ← pack_word (length content * 8)
  let last = length rs == 0
  let padding = if not last && length content % 2 == 1 then 0 ∷ [] else []
  rest ← write_data rs
  ok (0 ∷ 4 ∷ (size ++ (content ++ (padding ++ rest))))

unfoldable pub valid_range : Bool → MemoryRange → Bool
valid_range write r =
    not (r.count == 0 || ltb 0x200000 (r.start + r.count) || (write && ltb 65535 (r.count * 8)))

unfoldable pub valid_ranges : Bool → List MemoryRange → Bool
valid_ranges write [] = true
valid_ranges write (r ∷ rs) = valid_range write r && valid_ranges write rs

-- `none` for a request that cannot be encoded, an error where Python would raise
unfoldable pub request : ℕ → List MemoryRange → Bool → Result (Option Bytes)
request reference ranges write =
    if length ranges == 0 || ltb 20 (length ranges)
    then ok none
    else if not (valid_ranges write ranges)
    then ok none
    else do
      items ← addresses ranges
      let parameters = (if write then 5 else 4) ∷ length ranges ∷ items
      content ← (if write then write_data ranges else ok [])
      if ltb 65535 (length content)
          then ok none
          else do pdu ← packet 1 reference parameters content; ok (some pdu)
