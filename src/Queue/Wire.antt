-- ===== src/Queue/Wire.antt =====
-- `_wire`, `_check` and `_reply` of integration/queued_batches.py, with `_ack` of
-- integration/multi_batching.py: the PDUs that the peer expects and sends for one batch.
use lean_s.Prelude.{
  ℕ, ◌*◌, ◌%◌, Bool, true, false, not, ◌||◌, List, [], ◌∷◌, ◌++◌, ltb, ◌==◌, if◌then◌else◌, length,
  take, slice, drop,
}
use lean_s.Error.{Result, ok, value_error, runtime_error, ◌>>=◌, ◌>>◌, raise_if}
use lean_s.Bytes.{Bytes, equal, pack_word, to_bytes_3, from_bytes}
use lean_s.Queue.Plan.{Piece, payload}

-- bytes((5 if write else 4, len(batch)))
unfoldable pub opening : Bool → List Piece → Result Bytes
opening write batch = do
  raise_if (ltb 255 (length batch)) value_error
  ok ((if write then 5 else 4) ∷ length batch ∷ [])

unfoldable pub piece_address : Piece → Result Bytes
piece_address piece = do
  size ← pack_word piece.size
  bits ← to_bytes_3 (piece.start * 8)
  ok (0x12 ∷ 0x0a ∷ 0x10 ∷ 0x02 ∷ (size ++ (0 ∷ 1 ∷ 0x84 ∷ bits)))

-- the octet behind an odd item that another follows
unfoldable pub padding : Piece → List Piece → Bytes
padding piece [] = []
padding piece (next ∷ rest) = if piece.size % 2 == 1 then 0 ∷ [] else []

unfoldable pub item_data : ℕ → Piece → List Piece → Result Bytes
item_data code piece rest = do
  bits ← pack_word (piece.size * 8)
  ok (code ∷ 4 ∷ (bits ++ (payload piece ++ padding piece rest)))

-- The loop over the batch: the addresses, and the data of a write.
unfoldable pub wire_items : Bool → List Piece → Result (Bytes × Bytes)
wire_items write [] = ok ([], [])
wire_items write (piece ∷ rest) = do
  address ← piece_address piece
  content ← if write then item_data 0 piece rest else ok []
  behind ← wire_items write rest
  ok (address ++ behind.0, content ++ behind.1)

unfoldable pub wire : List Piece → Bool → Result Bytes
wire batch write = do
  start ← opening write batch
  items ← wire_items write batch
  let parameters = start ++ items.0
  parameter_size ← pack_word (length parameters)
  data_size ← pack_word (length items.1)
  ok (0x32 ∷ 1 ∷ 0 ∷ 0 ∷ 0 ∷ 0 ∷ (parameter_size ++ (data_size ++ (parameters ++ items.1))))

-- The reference of a request that is the expected one in everything else.
unfoldable pub check : Bytes → List Piece → ℕ → Bool → Result ℕ
check request batch pdu write = do
  expected ← wire batch write
  raise_if
      (ltb pdu (length request)
        || not (equal (take 4 request) (take 4 expected))
        || not (equal (drop 6 request) (drop 6 expected)))
      runtime_error
  ok (from_bytes (slice 4 6 request))

unfoldable pub ack : ℕ → Bytes → Bytes → Result Bytes
ack reference parameters content = do
  reference_word ← pack_word reference
  parameter_size ← pack_word (length parameters)
  data_size ← pack_word (length content)
  ok (
      0x32
      ∷ 3
      ∷ 0
      ∷ 0
      ∷ (reference_word ++ (parameter_size ++ (data_size ++ (0 ∷ 0 ∷ (parameters ++ content))))))

-- what one piece is answered with; the item 2 is always rejected
unfoldable pub reply_item : Bool → Piece → List Piece → Result Bytes
reply_item true piece rest = ok ((if piece.item == 2 then 5 else 0xff) ∷ [])
reply_item false piece rest =
    if piece.item == 2 then ok (5 ∷ 0 ∷ 0 ∷ 0 ∷ []) else item_data 0xff piece rest

unfoldable pub reply_items : Bool → List Piece → Result Bytes
reply_items write [] = ok []
reply_items write (piece ∷ rest) = do
  content ← reply_item write piece rest
  behind ← reply_items write rest
  ok (content ++ behind)

unfoldable pub reply : ℕ → List Piece → Bool → Result Bytes
reply reference batch write = do
  content ← reply_items write batch
  start ← opening write batch
  ack reference start content
