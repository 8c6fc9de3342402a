-- ===== src/Session/Response.antt =====
-- `response` of integration/session_conformance.py: the reply to the configured request.
use lean_s.Prelude.{
  ℕ, ◌+◌, ◌/◌, ◌%◌, Bool, not, ◌&&◌, ◌||◌, Option, none, some, List, [], ◌∷◌, ltb, ◌==◌,
  if◌then◌else◌, length, slice, drop, map,
}
use lean_s.Bytes.{Bytes, equal, byte_at, word_at}
use lean_s.Conversation.Types.{Location, ErrorKind, protocol, plc_rejected, Outcome, code_outcome}
use lean_s.Session.Config.{Config}

-- (error, []) or (None, results); a read has no results
pub data Reply : Type 0 where
  refused : ErrorKind → Reply
  answered : List Outcome → Reply

-- the size of a read item, if its length is whole octets
unfoldable pub item_size : ℕ → ℕ → Option ℕ
item_size transport size =
    if transport == 9 then some size else if not (size % 8 == 0) then none else some (size / 8)

-- One read item at an offset, to the offset behind it; the flag says that another item follows.
unfoldable pub check_item : Bytes → ℕ → Location → Bool → Option ℕ
check_item payload offset item more =
    if ltb (length payload) (offset + 4)
    then none
    else let code = byte_at payload offset in
      let transport = byte_at payload (offset + 1) in
      elim (item_size transport (word_at payload (offset + 2))) [
        | none ↦ none
        | some size ↦
            let next = offset + 4 + size in
            let padded = more && size % 2 == 1 in
            if ltb (length payload) next
            then none
            else if padded && next == length payload
            then none
            else if code == 255 && (not (transport == 4) || not (size == item.range.count))
            then none
            else some (if padded then next + 1 else next)
      ]

unfoldable pub check_items : Bytes → ℕ → List Location → Option ℕ
check_items payload offset [] = some offset
check_items payload offset (item ∷ rest) =
    elim (check_item payload offset item (not (length rest == 0))) [
      | none ↦ none
      | some next ↦ check_items payload next rest
    ]

unfoldable pub read_reply : Bytes → Option ℕ → Reply
read_reply payload none = refused protocol
read_reply payload (some offset) =
    if offset == length payload then answered [] else refused protocol

unfoldable pub response : Config → Bytes → Reply
response config pdu =
    let kind = byte_at pdu 1 in
    let reference = word_at pdu 4 in
    let parameter_size = word_at pdu 6 in
    let data_size = word_at pdu 8 in
    let width = length config.locations in
    let parameters = slice 12 (12 + parameter_size) pdu in
    let payload = drop (12 + parameter_size) pdu in
    if ltb (length pdu) 12
    then refused protocol
    else if not (byte_at pdu 0 == 0x32)
        || not (kind == 2 || kind == 3)
        || not (length pdu == 12 + parameter_size + data_size)
    then refused protocol
    else if not (reference == config.reference)
    then refused protocol
    else if not (byte_at pdu 10 == 0) || not (byte_at pdu 11 == 0)
    then refused plc_rejected
    else if not (equal parameters ((if config.write then 5 else 4) ∷ width ∷ []))
    then refused protocol
    else if config.write
    then (if not (length payload == width)
        then refused protocol
        else answered (map code_outcome payload))
    else read_reply payload (check_items payload 0 config.locations)
