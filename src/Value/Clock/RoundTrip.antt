-- ===== src/Value/Clock/RoundTrip.antt =====
-- A valid clock is read back from the ten octets that it is written to.
use lean_s.Prelude.{ℕ, ◌/◌, ◌%◌, ◌≤◌, ◌<◌, ◌≡◌, refl, true, Option, none, some, arith, length}
use lean_s.Bytes.{Bytes, byte_at}
use lean_s.Value.Clock.{
  Clock, DateTime, bcd, is_decimal, decimal, encode, fields, all_decimal, accept, validate_clock,
  decode_octets, decode_clock,
}

-- What `datetime.datetime` is relied on for: it refuses a field that has no place in a calendar.
pub record IsCalendar (datetime : DateTime) : Type 0 where
  pub bounds :
      (year month day hour minute second : ℕ)
      → datetime year month day hour minute second ≡ true
      → (month ≤ 12) × (day ≤ 31) × (hour ≤ 23) × (minute ≤ 59) × (second ≤ 59)

-- The two digits of a number below 100, packed and unpacked.
pub bcd_pair : (v : ℕ) → v < 100 → (is_decimal (bcd v) ≡ true) × (decimal (bcd v) ≡ v)
unfolding bcd is_decimal decimal
bcd_pair v h = (ground arith, ground arith)

-- the ranges of a valid clock
record InRange (c : Clock) : Type 0 where
  year : (1990 ≤ c.year) × (c.year ≤ 2089)
  month : c.month < 100
  day : c.day < 100
  hour : c.hour < 100
  minute : c.minute < 100
  second : c.second < 100
  millisecond : c.millisecond ≤ 999
  weekday : c.weekday ≤ 7

fields-encode : (c : Clock) → InRange c → fields (encode c) ≡ c
unfolding fields encode
fields-encode c r = ground (
  arith,
  bcd_pair (c.year % 100) (omega arith),
  bcd_pair c.month r.month,
  bcd_pair c.day r.day,
  bcd_pair c.hour r.hour,
  bcd_pair c.minute r.minute,
  bcd_pair c.second r.second,
  bcd_pair (c.millisecond / 10) (omega (arith, r.millisecond)),
)

decimal-encode :
    (c : Clock)
    → InRange c
    → (all_decimal (encode c) ≡ true) × (byte_at (encode c) 9 / 16 ≤ 9) × (length (encode c) ≡ 10)
unfolding all_decimal encode
decimal-encode c r = (
  ground (
    arith,
    bcd_pair (c.year % 100) (omega arith),
    bcd_pair c.month r.month,
    bcd_pair c.day r.day,
    bcd_pair c.hour r.hour,
    bcd_pair c.minute r.minute,
    bcd_pair c.second r.second,
    bcd_pair (c.millisecond / 10) (omega (arith, r.millisecond)),
  ),
  omega (arith, r.weekday, r.millisecond),
  refl,
)

module _ (datetime : DateTime) (calendar : IsCalendar datetime) where
  valid-InRange : (c : Clock) → validate_clock datetime c ≡ true → InRange c
  unfolding validate_clock
  valid-InRange c h =
      let fields = calendar.bounds c.year c.month c.day c.hour c.minute c.second (ground arith) in
      record {
        year = (ground arith, ground arith);
        month = omega (arith, fields);
        day = omega (arith, fields);
        hour = omega (arith, fields);
        minute = omega (arith, fields);
        second = omega (arith, fields);
        millisecond = ground arith;
        weekday = ground arith;
      }

  decode_octets-encode :
      (encoded : Option Bytes) (c : Clock)
      → validate_clock datetime c ≡ true
      → decode_octets datetime encoded (encode c) ≡ accept encoded c
  unfolding decode_octets
  decode_octets-encode encoded c h =
      let r = valid-InRange c h in
      let (digits, low, size) = decimal-encode c r in
      rw (fields-encode c r) (ground (arith, digits, low, size))

  -- A clock that passes validation is read back from its octets by either operation.
  pub decode_clock-encode :
      (c : Clock)
      → validate_clock datetime c ≡ true
      → (decode_clock datetime none (encode c) ≡ accept none c)
        × (decode_clock datetime (some c) (encode c) ≡ accept (some (encode c)) c)
  unfolding decode_clock
  decode_clock-encode c h =
      (decode_octets-encode none c h, rw h (decode_octets-encode (some (encode c)) c h))
