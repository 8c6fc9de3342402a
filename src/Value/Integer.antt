-- ===== src/Value/Integer.antt =====
-- `decode_integer` of integration/value_conformance.py: big-endian integers of 1, 2, 4 and 8 octets.
-- The input value is taken as the integer that its canonical decimal text stands for.
pub mod RoundTrip
use text.Mathlib.Text.{◌==◌ as str_eq}
use lean_s.Prelude.{
  ℕ, zero, suc, ◌+◌, ◌-◌, ◌*◌, ◌/◌, ◌%◌, ◌^◌, Bool, true, false, List, [], ◌∷◌, ◌++◌, String, ltb,
  if◌then◌else◌, length, slice,
}
use lean_s.Error.{Result, ok, err, value_error, overflow_error, ◌>>=◌}
use lean_s.Bytes.{Bytes, from_bytes}

-- A Python integer; `negsuc n` is -(n + 1).
pub data ℤ : Type 0 where
  pos : ℕ → ℤ
  negsuc : ℕ → ℤ

pub record Codec : Type 0 where
  pub signed : Bool
  pub width : ℕ

-- the table `sizes`
unfoldable pub codec : String → Result Codec
codec name =
    if str_eq name "int8"
    then ok (record { signed = true; width = 1 })
    else if str_eq name "int16"
    then ok (record { signed = true; width = 2 })
    else if str_eq name "int32"
    then ok (record { signed = true; width = 4 })
    else if str_eq name "int64"
    then ok (record { signed = true; width = 8 })
    else if str_eq name "uint8"
    then ok (record { signed = false; width = 1 })
    else if str_eq name "uint16"
    then ok (record { signed = false; width = 2 })
    else if str_eq name "uint32"
    then ok (record { signed = false; width = 4 })
    else if str_eq name "uint64"
    then ok (record { signed = false; width = 8 })
    else err value_error

-- the octets of n, for n below 256 ^ width
unfoldable pub octets_of : ℕ → ℕ → Bytes
octets_of zero n = []
octets_of (suc width) n = octets_of width (n / 256) ++ (n % 256 ∷ [])

-- int.from_bytes(bs, "big", signed=signed)
unfoldable pub read_integer : Bool → Bytes → ℤ
read_integer signed bs =
    let n = from_bytes bs in
    let modulus = 256 ^ length bs in
    if signed then (if ltb (n * 2) modulus then pos n else negsuc (modulus - n - 1)) else pos n

-- value.to_bytes(width, "big", signed=signed)
unfoldable pub to_bytes : Bool → ℕ → ℤ → Result Bytes
unfolding octets_of
to_bytes false width (pos n) =
    if ltb n (256 ^ width) then ok (octets_of width n) else err overflow_error
to_bytes false width (negsuc n) = err overflow_error
to_bytes true width (pos n) =
    if ltb (n * 2) (256 ^ width) then ok (octets_of width n) else err overflow_error
to_bytes true width (negsuc n) =
    if ltb (n * 2) (256 ^ width)
    then ok (octets_of width (256 ^ width - n - 1))
    else err overflow_error

pub data Decoded : Type 0 where
  accept : Bytes → ℤ → Decoded
  truncated_value : Decoded

-- `len(data) - offset < width`, with the subtraction moved across
unfoldable pub decode_integer : Codec → ℤ → Bytes → ℕ → Result Decoded
decode_integer c input octets offset =
    if ltb (length octets) (offset + c.width) then ok truncated_value else do
      encoded ← to_bytes c.signed c.width input
      ok (accept encoded (read_integer c.signed (slice offset (offset + c.width) octets)))
