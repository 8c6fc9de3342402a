-- ===== src/Queue/Lengths.antt =====
-- The lengths of the PDUs of integration/queued_batches.py for one batch.
use lean_s.Prelude.{
  ℕ, zero, suc, ◌+◌, ◌*◌, ◌/◌, ◌%◌, ◌++◌, ◌≤◌, ◌<◌, ◌≡◌, refl, ap, Bool, true, false, List, [], ◌∷◌,
  arith, ltb, ◌==◌, if◌then◌else◌, length, length-append, Bool-cases, inl, inr,
}
use lean_s.Error.{ok}
use lean_s.Bytes.{Bytes, pack_word, word, to_bytes_3}
use lean_s.Bytes.Laws.{equal_refl}
use lean_s.Queue.Plan.{Piece, octets, payload}
use lean_s.Queue.Wire.{
  opening, piece_address, padding, item_data, wire_items, wire, check, ack, reply_item, reply_items,
  reply,
}

-- The size and the address of a piece fit their fields.
abbrev pub Holds : Piece → Type 0
Holds piece = (piece.size < 8192) × (piece.start < 2097152)

abbrev pub Every : List Piece → Type 0
Every [] = Unit
Every (piece ∷ rest) = Holds piece × Every rest

length-octets : (item offset n : ℕ) → length (octets item offset n) ≡ n
unfolding octets
length-octets item offset zero = refl
length-octets item offset (suc n) = ap suc (length-octets item (suc offset) n)

length-payload : (piece : Piece) → length (payload piece) ≡ piece.size
unfolding payload
length-payload piece = length-octets piece.item piece.offset piece.size

pack_word-eq : (n : ℕ) → n < 65536 → pack_word n ≡ ok (word n)
pack_word-eq n h = ground arith

to_bytes_3-eq : (n : ℕ) → n < 16777216 → (bs : Bytes) × (to_bytes_3 n ≡ ok bs) × (length bs ≡ 3)
to_bytes_3-eq n h =
    let e : ltb n 16777216 ≡ true = ground arith in
    (n / 65536 ∷ n / 256 % 256 ∷ n % 256 ∷ [], rw e refl, refl)

-- the octets of one item in a data section, its padding included
abbrev pub item_size : Piece → List Piece → ℕ
item_size piece rest = 4 + piece.size + length (padding piece rest)

item_data-eq :
    (code : ℕ) (piece : Piece) (rest : List Piece)
    → Holds piece
    → (bs : Bytes) × (item_data code piece rest ≡ ok bs) × (length bs ≡ item_size piece rest)
unfolding item_data
item_data-eq code piece rest h = (
  code ∷ 4 ∷ (word (piece.size * 8) ++ (payload piece ++ padding piece rest)),
  rw (pack_word-eq (piece.size * 8) (omega (arith, h.0))) refl,
  omega (arith, length-append (payload piece) (padding piece rest), length-payload piece),
)

piece_address-eq :
    (piece : Piece) → Holds piece → (bs : Bytes) × (piece_address piece ≡ ok bs) × (length bs ≡ 12)
unfolding piece_address
piece_address-eq piece h =
    let (bits, e, three) = to_bytes_3-eq (piece.start * 8) (omega (arith, h.1)) in
    (
      0x12 ∷ 0x0a ∷ 0x10 ∷ 0x02 ∷ (word piece.size ++ (0 ∷ 1 ∷ 0x84 ∷ bits)),
      rw (pack_word-eq piece.size (omega (arith, h.0)), e) refl,
      omega (arith, three),
    )

-- the octets of the data section of a request
unfoldable pub request_data : Bool → List Piece → ℕ
request_data write [] = 0
request_data write (piece ∷ rest) =
    (if write then item_size piece rest else 0) + request_data write rest

-- the octets of the data section of a reply that rejects nothing
unfoldable pub reply_data : Bool → List Piece → ℕ
reply_data write [] = 0
reply_data write (piece ∷ rest) =
    (if write then 1 else item_size piece rest) + reply_data write rest

wire_item-eq :
    (write : Bool) (piece : Piece) (rest : List Piece)
    → Holds piece
    → (bs : Bytes) × ((if write then item_data 0 piece rest else ok []) ≡ ok bs)
      × (length bs ≡ (if write then item_size piece rest else 0))
wire_item-eq true piece rest h = item_data-eq 0 piece rest h
wire_item-eq false piece rest h = ([], refl, refl)

wire_items-eq :
    (write : Bool) (batch : List Piece)
    → Every batch
    → (items : Bytes × Bytes) × (wire_items write batch ≡ ok items)
      × (length items.0 ≡ 12 * length batch)
      × (length items.1 ≡ request_data write batch)
unfolding wire_items request_data
wire_items-eq write [] h = (([], []), refl, refl, refl)
wire_items-eq write (piece ∷ rest) (h, hs) =
    let (address, e, m) = piece_address-eq piece h in
    let (content, f, n) = wire_item-eq write piece rest h in
    let (behind, g, k, l) = wire_items-eq write rest hs in
    (
      (address ++ behind.0, content ++ behind.1),
      rw (e, f, g) refl,
      omega (arith, length-append address behind.0, m, k),
      omega (arith, length-append content behind.1, n, l),
    )

opening-eq :
    (write : Bool) (batch : List Piece)
    → length batch ≤ 20
    → opening write batch ≡ ok ((if write then 5 else 4) ∷ length batch ∷ [])
unfolding opening
opening-eq write batch h = let e : ltb 255 (length batch) ≡ false = ground arith in rw e refl

-- A request that is short enough by its data exists, and its reference is 0.
pub wire-eq :
    (write : Bool) (batch : List Piece) (pdu : ℕ)
    → Every batch
    → length batch ≤ 20
    → 12 + 12 * length batch + request_data write batch ≤ pdu
    → pdu < 8192
    → (rest : Bytes) × (wire batch write ≡ ok (0x32 ∷ 1 ∷ 0 ∷ 0 ∷ 0 ∷ 0 ∷ rest))
      × (6 + length rest ≤ pdu)
unfolding wire
wire-eq write batch pdu h twenty fits small =
    let (items, e, m, n) = wire_items-eq write batch h in
    let parameters = (if write then 5 else 4) ∷ length batch ∷ items.0 in
    (
      word (length parameters) ++ (word (length items.1) ++ (parameters ++ items.1)),
      rw
          (
            opening-eq write batch twenty,
            e,
            pack_word-eq (length parameters) (omega (arith, m)),
            pack_word-eq (length items.1) (omega (arith, n)),
          )
          refl,
      omega (arith, length-append items.0 items.1, m, n),
    )

-- The expected request passes the check, with reference 0.
pub check-wire :
    (write : Bool) (batch : List Piece) (pdu : ℕ) (rest : Bytes)
    → wire batch write ≡ ok (0x32 ∷ 1 ∷ 0 ∷ 0 ∷ 0 ∷ 0 ∷ rest)
    → 6 + length rest ≤ pdu
    → check (0x32 ∷ 1 ∷ 0 ∷ 0 ∷ 0 ∷ 0 ∷ rest) batch pdu write ≡ ok 0
unfolding check
check-wire write batch pdu rest e fits =
    let short : ltb pdu (suc (suc (suc (suc (suc (suc (length rest))))))) ≡ false = ground arith in
    rw (e, short, equal_refl rest) refl

reply_item-eq :
    (write : Bool) (piece : Piece) (rest : List Piece)
    → Holds piece
    → (bs : Bytes) × (reply_item write piece rest ≡ ok bs)
      × (length bs ≤ (if write then 1 else item_size piece rest))
unfolding reply_item
reply_item-eq true piece rest h = (_, refl, omega arith)
reply_item-eq false piece rest h = elim (Bool-cases (piece.item == 2)) [
  | inl e ↦ (5 ∷ 0 ∷ 0 ∷ 0 ∷ [], rw e refl, omega arith)
  | inr e ↦ let (bs, f, n) = item_data-eq 0xff piece rest h in (bs, rw e f, omega (arith, n))
]

reply_items-eq :
    (write : Bool) (batch : List Piece)
    → Every batch
    → (bs : Bytes) × (reply_items write batch ≡ ok bs) × (length bs ≤ reply_data write batch)
unfolding reply_items reply_data
reply_items-eq write [] h = ([], refl, omega arith)
reply_items-eq write (piece ∷ rest) (h, hs) =
    let (content, e, m) = reply_item-eq write piece rest h in
    let (behind, f, n) = reply_items-eq write rest hs in
    (content ++ behind, rw (e, f) refl, omega (arith, length-append content behind, m, n))

-- A reply that is short enough by its data exists.
pub reply-eq :
    (reference : ℕ) (write : Bool) (batch : List Piece) (pdu : ℕ)
    → reference < 65536
    → Every batch
    → length batch ≤ 20
    → 14 + reply_data write batch ≤ pdu
    → pdu < 8192
    → (bs : Bytes) × (reply reference batch write ≡ ok bs) × (length bs ≤ pdu)
unfolding reply ack
reply-eq reference write batch pdu hr h twenty fits small =
    let (content, e, n) = reply_items-eq write batch h in
    let start = (if write then 5 else 4) ∷ length batch ∷ [] in
    (
      0x32
          ∷ 3
          ∷ 0
          ∷ 0
          ∷ (word reference ++ (word 2 ++ (word (length content) ++ (0 ∷ 0 ∷ (start ++ content))))),
      rw
          (
            e,
            opening-eq write batch twenty,
            pack_word-eq reference hr,
            pack_word-eq (length content) (omega (arith, n)),
          )
          refl,
      omega (arith, n),
    )
