-- ===== src/Value/Clock.antt =====
-- `validate_clock`, `_bcd` and `decode_clock` of integration/value_conformance.py.
pub mod RoundTrip
use lean_s.Prelude.{
  ℕ, zero, suc, ◌+◌, ◌-◌, ◌*◌, ◌/◌, ◌%◌, Bool, Option, none, some, not, ◌&&◌, ◌||◌, List, [], ◌∷◌,
  ltb, leb, ◌==◌, if◌then◌else◌, length,
}
use lean_s.Bytes.{Bytes, byte_at}

pub record Clock : Type 0 where
  pub year : ℕ
  pub month : ℕ
  pub day : ℕ
  pub hour : ℕ
  pub minute : ℕ
  pub second : ℕ
  pub millisecond : ℕ
  pub weekday : ℕ

-- int(f"{value:02d}", 16): every decimal digit becomes a hexadecimal one. A value that
-- is encoded has two digits; the fuel allows for four.
unfoldable pub bcd_digits : ℕ → ℕ → ℕ
bcd_digits zero value = 0
bcd_digits (suc fuel) value = bcd_digits fuel (value / 10) * 16 + value % 10

unfoldable pub bcd : ℕ → ℕ
unfolding bcd_digits
bcd value = bcd_digits 4 value

-- f"{byte:02x}".isdecimal()
unfoldable pub is_decimal : ℕ → Bool
is_decimal byte = ltb (byte / 16) 10 && ltb (byte % 16) 10

-- int(f"{byte:02x}"), of such a byte
unfoldable pub decimal : ℕ → ℕ
decimal byte = byte / 16 * 10 + byte % 16

-- Which year, month, day, hour, minute and second `datetime.datetime` accepts.
abbrev pub DateTime : Type 0
DateTime = ℕ → ℕ → ℕ → ℕ → ℕ → ℕ → Bool

pub data Category : Type 0 where
  encode_clock clock_validation : Category

-- The octets of the input stand beside the clock where the operation is a round trip.
pub data Decoded : Type 0 where
  accept : Option Bytes → Clock → Decoded
  reject : Category → Decoded

unfoldable pub encode : Clock → Bytes
encode c =
    0
    ∷ 0x19
    ∷ bcd (c.year % 100)
    ∷ bcd c.month
    ∷ bcd c.day
    ∷ bcd c.hour
    ∷ bcd c.minute
    ∷ bcd c.second
    ∷ bcd (c.millisecond / 10)
    ∷ (c.millisecond % 10 * 16 + c.weekday)
    ∷ []

-- the clock that ten octets stand for
unfoldable pub fields : Bytes → Clock
fields octets =
    let year = decimal (byte_at octets 2) in
    record {
      year = if ltb year 90 then 2000 + year else 1900 + year;
      month = decimal (byte_at octets 3);
      day = decimal (byte_at octets 4);
      hour = decimal (byte_at octets 5);
      minute = decimal (byte_at octets 6);
      second = decimal (byte_at octets 7);
      millisecond = decimal (byte_at octets 8) * 10 + byte_at octets 9 / 16;
      weekday = byte_at octets 9 % 16;
    }

unfoldable pub all_decimal : Bytes → Bool
all_decimal octets =
    is_decimal (byte_at octets 2)
    && is_decimal (byte_at octets 3)
    && is_decimal (byte_at octets 4)
    && is_decimal (byte_at octets 5)
    && is_decimal (byte_at octets 6)
    && is_decimal (byte_at octets 7)
    && is_decimal (byte_at octets 8)

module _ (datetime : DateTime) where
  unfoldable pub validate_clock : Clock → Bool
  validate_clock c =
      leb 1990 c.year
      && leb c.year 2089
      && leb c.millisecond 999
      && leb 1 c.weekday
      && leb c.weekday 7
      && datetime c.year c.month c.day c.hour c.minute c.second

  unfoldable pub decode_octets : Option Bytes → Bytes → Decoded
  decode_octets encoded octets =
      if not (length octets == 10)
      then reject clock_validation
      else if not (all_decimal octets) || ltb 9 (byte_at octets 9 / 16)
      then reject clock_validation
      else if not (validate_clock (fields octets))
      then reject clock_validation
      else accept encoded (fields octets)

  -- The operation is "decode" with no input, and "roundtrip" with one.
  unfoldable pub decode_clock : Option Clock → Bytes → Decoded
  decode_clock none octets = decode_octets none octets
  decode_clock (some input) octets =
      if not (validate_clock input)
      then reject encode_clock
      else decode_octets (some (encode input)) octets
