-- ===== src/Overlap/Peer.antt =====
-- The peer of integration/overlap_operations.py: `_check_request`, `_read`, `_write` and the loop of
-- `_serve`. The connection is the list of the requests that the client will send, after which it
-- is closed; the peer returns those that it has left and the packets that it has sent.
use Prim.Native.Nat.{min}
use lean_s.Prelude.{
  ℕ, ◌+◌, ◌-◌, ◌*◌, Bool, true, false, not, ◌||◌, none, some, List, [], ◌∷◌, ◌++◌, ltb, ◌==◌,
  if◌then◌else◌, length, take, drop, slice, get_elem?,
}
use lean_s.Error.{
  Result, ok, err, value_error, struct_error, index_error, runtime_error, ◌>>=◌, ◌>>◌, raise_if,
}
use lean_s.Bytes.{Bytes, equal, pack_word, to_bytes_3, from_bytes}
use lean_s.Queue.Wire.{ack}
use lean_s.Overlap.{
  Operation, reads, writes, bits, other, memory_size, initial_memory, payload, update_bit,
}

-- the transport size and the length that precede the payload of a write
unfoldable pub written : Bool → ℕ → Bytes → Result Bytes
written false count content = ok []
written true count content = do size ← pack_word (count * 8); ok (0 ∷ 4 ∷ (size ++ content))

unfoldable pub expected_request : Bool → ℕ → ℕ → Bytes → Result Bytes
expected_request write start count content = do
  size ← pack_word count
  address ← to_bytes_3 (start * 8)
  let parameters =
      (if write then 5 else 4) ∷ 1 ∷ 0x12 ∷ 0x0a ∷ 0x10 ∷ 2 ∷ (size ++ (0 ∷ 1 ∷ 0x84 ∷ address))
  behind ← written write count content
  parameter_size ← pack_word (length parameters)
  data_size ← pack_word (length behind)
  ok (0x32 ∷ 1 ∷ 0 ∷ 0 ∷ 0 ∷ 0 ∷ (parameter_size ++ (data_size ++ (parameters ++ behind))))

-- The reference of a request that is the expected one in everything else.
unfoldable pub check_request : Bytes → Bool → ℕ → ℕ → ℕ → Bytes → Result ℕ
check_request request write start count pdu content = do
  expected ← expected_request write start count content
  raise_if
      (ltb pdu (length request)
        || not (equal (take 4 request) (take 4 expected))
        || not (equal (drop 6 request) (drop 6 expected)))
      runtime_error
  ok (from_bytes (slice 4 6 request))

-- One round of the loop of `_read`: the octets read, and the packet sent.
unfoldable pub read_chunk : Bytes → Bytes → ℕ → ℕ → ℕ → ℕ → Result (ℕ × Bytes)
read_chunk request memory start offset count pdu = do
  raise_if (ltb pdu 18) struct_error
  let size = min (pdu - 18) (count - offset)
  reference ← check_request request false (start + offset) size pdu []
  length_word ← pack_word (size * 8)
  packet ←
      ack reference (4 ∷ 1 ∷ [])
        (0xff ∷ 4 ∷ (length_word ++ slice (start + offset) (start + offset + size) memory))
  ok (size, packet)

unfoldable pub read : List Bytes → Bytes → ℕ → ℕ → ℕ → ℕ → Result (List Bytes × List Bytes)
read [] memory start offset count pdu = if ltb offset count then err runtime_error else ok ([], [])
read (request ∷ requests) memory start offset count pdu = elim (ltb offset count) [
  | false ↦ ok (request ∷ requests, [])
  | true ↦ read_chunk request memory start offset count pdu >>= λ chunk.
      read requests memory start (offset + chunk.0) count pdu >>= λ rest.
      ok (rest.0, chunk.1 ∷ rest.1)
]

-- request[-size:], which is the whole request for 0
unfoldable pub last_of : ℕ → Bytes → Bytes
last_of size request = if size == 0 then request else drop (length request - size) request

-- One round of the loop of `_write`: the octets written, the memory then, and the packet sent.
unfoldable pub write_chunk : Bytes → Bytes → ℕ → ℕ → Bytes → ℕ → Result (ℕ × Bytes × Bytes)
write_chunk request memory start offset content pdu = do
  raise_if (ltb pdu 28) struct_error
  let size = min (pdu - 28) (length content - offset)
  reference ←
      check_request request true (start + offset) size pdu (slice offset (offset + size) content)
  packet ← ack reference (5 ∷ 1 ∷ []) (0xff ∷ [])
  ok (
    size,
    take (start + offset) memory ++ (last_of size request ++ drop (start + offset + size) memory),
    packet,
  )

unfoldable pub write :
    List Bytes → Bytes → ℕ → ℕ → Bytes → ℕ → Result (List Bytes × Bytes × List Bytes)
write [] memory start offset content pdu =
    if ltb offset (length content) then err runtime_error else ok ([], memory, [])
write (request ∷ requests) memory start offset content pdu = elim (ltb offset (length content)) [
  | false ↦ ok (request ∷ requests, memory, [])
  | true ↦ write_chunk request memory start offset content pdu >>= λ chunk.
      write requests chunk.1 start (offset + chunk.0) content pdu >>= λ rest.
      ok (rest.0, rest.1, chunk.2 ∷ rest.2)
]

-- memory[start]
unfoldable pub octet_of : Bytes → ℕ → Result ℕ
octet_of memory start = elim (get_elem? memory start) [ none ↦ err index_error | some b ↦ ok b ]

-- The operation "b": an octet is read, written with the bit updated, and read again.
unfoldable pub serve_bit :
    List Bytes → Bytes → Operation → ℕ → Result (List Bytes × Bytes × List Bytes)
serve_bit requests memory operation pdu = do
  previous ← octet_of memory operation.start
  before ← read requests memory operation.start 0 1 pdu
  let updated = update_bit previous operation.size operation.argument
  raise_if (ltb 255 updated) value_error
  changed ← write before.0 memory operation.start 0 (updated ∷ []) pdu
  after ← read changed.0 changed.1 operation.start 0 1 pdu
  ok (after.0, changed.1, before.1 ++ (changed.2 ++ after.1))

unfoldable pub serve_operation :
    List Bytes → Bytes → Operation → ℕ → Result (List Bytes × Bytes × List Bytes)
serve_operation requests memory operation pdu = elim operation.kind [
  | reads ↦ read requests memory operation.start 0 operation.size pdu >>= λ rest.
      ok (rest.0, memory, rest.1)
  | writes ↦ write requests memory operation.start 0 (payload operation.argument operation.size) pdu
  | bits ↦ serve_bit requests memory operation pdu
  | other ↦ err runtime_error
]

-- The operations in order, and the final observation of the whole memory.
unfoldable pub serve_each :
    List Operation → List Bytes → Bytes → ℕ → Result (List Bytes × Bytes × List Bytes)
serve_each [] requests memory pdu =
    read requests memory 0 0 memory_size pdu >>= λ rest. ok (rest.0, memory, rest.1)
serve_each (operation ∷ operations) requests memory pdu = do
  first ← serve_operation requests memory operation pdu
  rest ← serve_each operations first.0 first.1 pdu
  ok (rest.0, rest.1, first.2 ++ rest.2)

-- `_serve` between the handshake and the disconnect
unfoldable pub serve : List Operation → List Bytes → ℕ → Result (List Bytes × Bytes × List Bytes)
serve operations requests pdu = serve_each operations requests initial_memory pdu
