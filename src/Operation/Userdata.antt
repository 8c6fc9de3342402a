-- ===== src/Operation/Userdata.antt =====
-- `decode_userdata` of integration/operation_conformance.py: a reply that must be complete.
use Prim.Native.Nat.{bit_or}
use lean_s.Prelude.{ℕ, ◌+◌, not, ◌||◌, [], ◌∷◌, ltb, ◌==◌, if◌then◌else◌, length, take, drop, slice}
use lean_s.Bytes.{Bytes, equal, byte_at, word_at}

pub data Category : Type 0 where
  pdu_validation incomplete_single_response : Category

pub data Decoded : Type 0 where
  accept : Bytes → Decoded
  reject : Category → Decoded

unfoldable pub decode_userdata : Bytes → ℕ → ℕ → ℕ → Decoded
decode_userdata pdu reference group subfunction =
    let parameter_size = word_at pdu 6 in
    let data_size = word_at pdu 8 in
    let parameters = slice 10 22 pdu in
    let payload = drop 22 pdu in
    if ltb (length pdu) 10 || not (equal (take 2 pdu) (0x32 ∷ 7 ∷ []))
    then reject pdu_validation
    else if not (word_at pdu 4 == reference)
        || not (parameter_size == 12)
        || not (length pdu == 10 + parameter_size + data_size)
    then reject pdu_validation
    else if not (equal (take 5 parameters) (0 ∷ 1 ∷ 0x12 ∷ 8 ∷ 0x12 ∷ []))
        || not (byte_at parameters 5 == bit_or 0x80 group)
        || not (byte_at parameters 6 == subfunction)
        || not (byte_at parameters 9 == 0 || byte_at parameters 9 == 1)
        || not (equal (drop 10 parameters) (0 ∷ 0 ∷ []))
        || ltb (length payload) 4
        || not (byte_at payload 0 == 255)
        || not (length payload == 4 + word_at payload 2)
    then reject pdu_validation
    else if not (byte_at parameters 9 == 0)
    then reject incomplete_single_response
    else accept (drop 4 payload)
