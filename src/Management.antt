-- ===== src/Management.antt =====
-- `decode` and `request` of integration/management_conformance.py: one USERDATA reply and the
-- requests of a management conversation.
use Prim.Native.Nat.{bit_or}
use lean_s.Prelude.{
  ℕ, ◌+◌, ◌/◌, ◌%◌, Bool, not, ◌&&◌, ◌||◌, Option, none, some, [], ◌∷◌, ◌++◌, ltb, ◌==◌,
  if◌then◌else◌, length, take, drop, slice,
}
use lean_s.Error.{Result, ok, err, value_error, ◌>>=◌}
use lean_s.Bytes.{Bytes, equal, byte_at, word_at, pack_word}

pub data Category : Type 0 where
  protocol plc_rejected : Category

pub record Reply : Type 0 where
  pub payload : Bytes
  pub sequence : ℕ
  pub data_unit_reference : ℕ
  pub has_more_data : Bool
  pub return_code : ℕ
  pub transport_size : ℕ

pub data Decoded : Type 0 where
  accept : Reply → Decoded
  reject : Category → Decoded

-- (group, subfunction) in ((7, 2), (5, 1), (5, 2)), for a return code of 10
unfoldable pub null_ack : ℕ → ℕ → ℕ → Bool
null_ack code group subfunction =
    code == 10
    && ((group == 7 && subfunction == 2)
        || (group == 5 && subfunction == 1)
        || (group == 5 && subfunction == 2))

-- the data section, once the parameters are known to be good
unfoldable pub decode_data : Bytes → Bytes → ℕ → ℕ → Decoded
unfolding null_ack
decode_data parameters payload group subfunction =
    let code = byte_at payload 0 in
    let transport = byte_at payload 1 in
    let size = word_at payload 2 in
    let empty = null_ack code group subfunction in
    let done = accept (record {
      payload = drop 4 payload;
      sequence = byte_at parameters 7;
      data_unit_reference = byte_at parameters 8;
      has_more_data = not (byte_at parameters 9 == 0);
      return_code = code;
      transport_size = transport;
    }) in
    if ltb (length payload) 4
    then reject protocol
    else if not (code == 255) && not empty
    then reject plc_rejected
    else if empty && (not (transport == 0) || not (size == 0) || not (byte_at parameters 9 == 0))
    then reject protocol
    else if not empty && not (transport == 9)
    then reject protocol
    else if not (length payload == 4 + size)
    then reject protocol
    else done

unfoldable pub decode : Bytes → ℕ → ℕ → ℕ → Decoded
decode pdu reference group subfunction =
    let parameter_size = word_at pdu 6 in
    let data_size = word_at pdu 8 in
    let parameters = slice 10 22 pdu in
    if ltb (length pdu) 10
    then reject protocol
    else if not (byte_at pdu 0 == 0x32)
        || not (byte_at pdu 1 == 7)
        || not (word_at pdu 4 == reference)
        || not (parameter_size == 12)
        || not (length pdu == 10 + parameter_size + data_size)
    then reject protocol
    else if not (equal (take 5 parameters) (0 ∷ 1 ∷ 0x12 ∷ 8 ∷ 0x12 ∷ []))
        || not (byte_at parameters 5 / 16 == 8)
        || not (byte_at parameters 5 % 16 == group)
        || not (byte_at parameters 6 == subfunction)
        || not (byte_at parameters 9 == 0 || byte_at parameters 9 == 1)
    then reject protocol
    else if not (word_at parameters 10 == 0)
    then reject plc_rejected
    else decode_data parameters (drop 22 pdu) group subfunction

-- an element of a list that `bytes` takes
unfoldable pub octet : ℕ → Result ℕ
octet n = if ltb n 256 then ok n else err value_error

-- the first request of a conversation, or with a sequence number the one for its next fragment
unfoldable pub parameters_of : ℕ → ℕ → Option ℕ → Result Bytes
unfolding octet
parameters_of group subfunction none = do
  g ← octet (bit_or 0x40 group)
  s ← octet subfunction
  ok (0 ∷ 1 ∷ 0x12 ∷ 4 ∷ 0x11 ∷ g ∷ s ∷ 0 ∷ [])
parameters_of group subfunction (some sequence) = do
  g ← octet (bit_or 0x40 group)
  s ← octet subfunction
  n ← octet sequence
  ok (0 ∷ 1 ∷ 0x12 ∷ 8 ∷ 0x12 ∷ g ∷ s ∷ n ∷ 0 ∷ 0 ∷ 0 ∷ 0 ∷ [])

unfoldable pub data_of : ℕ → Option ℕ → Bytes
data_of group none =
    if group == 4
    then 0xff ∷ 9 ∷ 0 ∷ 4 ∷ 4 ∷ 0x24 ∷ 0 ∷ 0 ∷ []
    else 0xff ∷ 9 ∷ 0 ∷ 2 ∷ 0x30 ∷ 0x41 ∷ []
data_of group (some sequence) = 0x0a ∷ 0 ∷ 0 ∷ 0 ∷ []

unfoldable pub request : ℕ → ℕ → ℕ → Option ℕ → Result Bytes
request reference group subfunction sequence = do
  parameters ← parameters_of group subfunction sequence
  let content = data_of group sequence
  number ← pack_word reference
  parameter_size ← pack_word (length parameters)
  data_size ← pack_word (length content)
  ok (0x32 ∷ 7 ∷ 0 ∷ 0 ∷ (number ++ (parameter_size ++ (data_size ++ (parameters ++ content)))))
