-- ===== src/Sequence/Multi.antt =====
-- `decode_multi` of integration/sequence_conformance.py: the items of a multi-item response.
use lean_s.Prelude.{
  ℕ, ◌+◌, ◌/◌, ◌%◌, Bool, not, ◌&&◌, ◌||◌, Option, none, some, List, [], ◌∷◌, ltb, leb, ◌==◌,
  if◌then◌else◌, length, slice,
}
use lean_s.Error.{Result, ok, err, value_error, ◌>>=◌, ◌>>◌, raise_if}
use lean_s.Bytes.{Bytes, equal, byte_at, word_at}
use lean_s.Conversation.Types.{MemoryRange}
use lean_s.Sequence.Sections.{sections}

-- {"status": "success"}, with the payload of a read, or {"status": "failure", "code": code}
pub data ItemResult : Type 0 where
  success : Option Bytes → ItemResult
  failure : ℕ → ItemResult

-- `size`: octets as they are for transport 9, else whole octets of a bit count
unfoldable pub read_size : ℕ → ℕ → Result ℕ
read_size transport size =
    if transport == 9
    then ok size
    else if not (size % 8 == 0)
    then err value_error
    else ok (size / 8)

unfoldable pub item_result : ℕ → Option Bytes → ItemResult
item_result code content = if code == 255 then success content else failure code

-- One read item at an offset: its result, and the offset behind it. The flag says that another
-- item follows.
unfoldable pub read_item : Bytes → ℕ → MemoryRange → Bool → Result (ItemResult × ℕ)
read_item payload offset item more = do
  raise_if (ltb (length payload) (offset + 4)) value_error
  let code = byte_at payload offset
  let transport = byte_at payload (offset + 1)
  size ← read_size transport (word_at payload (offset + 2))
  let start = offset + 4
  raise_if (ltb (length payload) (start + size)) value_error
  let content = slice start (start + size) payload
  let next = start + size
  let padded = more && size % 2 == 1
  raise_if (padded && leb (length payload) next) value_error
  raise_if (code == 255 && (not (transport == 4) || not (size == item.count))) value_error
  ok (item_result code (some content), if padded then next + 1 else next)

-- One write item is a status octet.
unfoldable pub write_item : Bytes → ℕ → Result (ItemResult × ℕ)
write_item payload offset = do
  raise_if (leb (length payload) offset) value_error
  ok (item_result (byte_at payload offset) none, offset + 1)

unfoldable pub decode_items : Bool → Bytes → ℕ → List MemoryRange → Result (List ItemResult × ℕ)
decode_items write payload offset [] = ok ([], offset)
decode_items write payload offset (item ∷ ranges) = do
  first ←
      (if write
        then write_item payload offset
        else read_item payload offset item (not (length ranges == 0)))
  rest ← decode_items write payload first.1 ranges
  ok (first.0 ∷ rest.0, rest.1)

unfoldable pub decode_multi : Bytes → ℕ → Bool → List MemoryRange → Result (List ItemResult)
decode_multi response_pdu reference write ranges = do
  split ← sections response_pdu 3 reference
  let function : ℕ = if write then 5 else 4
  raise_if (not (equal split.0 (function ∷ length ranges ∷ []))) value_error
  decoded ← decode_items write split.1 0 ranges
  raise_if (not (decoded.1 == length split.1)) value_error
  ok decoded.0
