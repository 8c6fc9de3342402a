-- ===== src/Queue/Plan.antt =====
-- `Piece`, `_payload` and `_batches` of integration/queued_batches.py: the batches that a list of
-- item sizes is put into.
use lean_s.Prelude.{
  ℕ, zero, suc, ◌+◌, ◌-◌, ◌*◌, ◌%◌, Bool, ◌&&◌, ◌||◌, List, [], ◌∷◌, ◌++◌, map, ltb, leb, ◌==◌,
  if◌then◌else◌, length,
}
use lean_s.Error.{Result, ok, err, value_error, ◌>>=◌}
use lean_s.Bytes.{Bytes}

pub record Piece : Type 0 where
  pub item : ℕ
  pub start : ℕ
  pub offset : ℕ
  pub size : ℕ

-- The test octets of an item, a number of them from an offset on.
unfoldable pub octets : ℕ → ℕ → ℕ → Bytes
octets item offset zero = []
octets item offset (suc n) = (item * 29 + offset * 37 + 11) % 256 ∷ octets item (suc offset) n

unfoldable pub payload : Piece → Bytes
payload piece = octets piece.item piece.offset piece.size

-- what an item takes of the longer of its two PDUs
unfoldable pub contribution : ℕ → ℕ
contribution size = 4 + size + size % 2

-- what an item adds to a request, besides the 12 octets of its address
unfoldable pub asked : Bool → ℕ → ℕ
asked write size = if write then contribution size else 0

-- what an item adds to a response
unfoldable pub answered : Bool → ℕ → ℕ
answered write size = if write then 1 else contribution size

unfoldable pub alone_fits : ℕ → Bool → ℕ → Bool
alone_fits pdu write size =
    leb (12 + 12 + asked write size) pdu && leb (14 + answered write size) pdu

-- The variables of the loop over the items.
pub record Planned : Type 0 where
  pub batches : List (List Piece)
  pub selected : List Piece
  pub request : ℕ
  pub response : ℕ

-- `batches`, with the selected pieces behind them where there are any
unfoldable pub settle : List (List Piece) → List Piece → List (List Piece)
settle batches [] = batches
settle batches (piece ∷ selected) = batches ++ ((piece ∷ selected) ∷ [])

-- The pieces of an oversized item from an offset on. As many steps as the item has octets are
-- enough.
unfoldable pub pieces : ℕ → ℕ → ℕ → ℕ → ℕ → ℕ → List Piece
pieces zero maximum item start size offset = []
pieces (suc fuel) maximum item start size offset =
    let rest = pieces fuel maximum item start size (offset + maximum) in
    let limited = if ltb maximum (size - offset) then maximum else size - offset in
    if ltb offset size
    then (record { item = item; start = start + offset; offset = offset; size = limited }) ∷ rest
    else []

unfoldable pub reserve : Bool → ℕ
reserve write = if write then 28 else 18

-- The loop over `range(0, size, maximum)`: a step of 0 is a ValueError, and a negative one passes
-- over nothing.
unfoldable pub divided : ℕ → Bool → ℕ → ℕ → ℕ → Result (List Piece)
divided pdu write item start size =
    if pdu == reserve write
    then err value_error
    else ok (
        if ltb pdu (reserve write) then [] else pieces size (pdu - reserve write) item start size 0)

unfoldable pub singleton : Piece → List Piece
singleton piece = piece ∷ []

-- an item that no PDU holds alone
unfoldable pub divide : ℕ → Bool → ℕ → ℕ → ℕ → Planned → Result Planned
divide pdu write item start size s = do
  singles ← divided pdu write item start size
  ok (record {
    batches = settle s.batches s.selected ++ map singleton singles;
    selected = [];
    request = 12;
    response = 14;
  })

unfoldable pub flush : Planned → Planned
flush s = record {
  batches = s.batches ++ (s.selected ∷ []);
  selected = [];
  request = 12;
  response = 14;
}

unfoldable pub select : Bool → Piece → Planned → Planned
select write piece s = record s {
  selected = s.selected ++ (piece ∷ []);
  request = s.request + (12 + asked write piece.size);
  response = s.response + answered write piece.size;
}

-- an item that one PDU holds
unfoldable pub join : ℕ → Bool → Piece → Planned → Planned
join pdu write piece s =
    let next_request = s.request + 12 + asked write piece.size in
    let next_response = s.response + answered write piece.size in
    let full = length s.selected == 20 || ltb pdu next_request || ltb pdu next_response in
    select write piece (if full then flush s else s)

unfoldable pub place : ℕ → Bool → ℕ → ℕ → ℕ → Planned → Result Planned
place pdu write item start size s =
    if alone_fits pdu write size
    then ok (join pdu write (record { item = item; start = start; offset = 0; size = size }) s)
    else divide pdu write item start size s

-- The address of an item, given the sizes behind it: the last item starts at 0.
unfoldable pub start_of : ℕ → List ℕ → ℕ
start_of item [] = 0
start_of item (next ∷ sizes) = item * 2048

-- the loop over the items, from an index on
unfoldable pub place_each : ℕ → Bool → ℕ → List ℕ → Planned → Result Planned
place_each pdu write item [] s = ok s
place_each pdu write item (size ∷ sizes) s = do
  t ← place pdu write item (start_of item sizes) size s
  place_each pdu write (item + 1) sizes t

unfoldable pub batches : List ℕ → ℕ → Bool → Result (List (List Piece))
batches sizes pdu write = do
  s ←
      place_each pdu write 0 sizes
        (record { batches = []; selected = []; request = 12; response = 14 })
  ok (settle s.batches s.selected)
