-- ===== src/Tests/Values.antt =====
-- The value codecs at concrete values.
use lean_s.Prelude.{ℕ, ◌≡◌, refl, true, ◌&&◌, none, some, [], ◌∷◌, ◌++◌, arith, leb, length}
use lean_s.Error.{ok}
use lean_s.Value.Clock.{Clock, DateTime, validate_clock, encode, decode_clock}
use lean_s.Value.Clock
use lean_s.Value.Clock.RoundTrip.{IsCalendar, decode_clock-encode}
use lean_s.Value.Integer.{negsuc, accept, to_bytes, decode_integer}
use lean_s.Value.Integer.RoundTrip.{decode_integer-to_bytes}

-- a calendar whose months all have 31 days
abbrev uniform : DateTime
uniform year month day hour minute second =
    leb month 12 && leb day 31 && leb hour 23 && leb minute 59 && leb second 59

uniform-IsCalendar : IsCalendar uniform
uniform-IsCalendar = record { bounds = λ year month day hour minute second h. ground arith }

abbrev afternoon : Clock
afternoon = record {
  year = 2026;
  month = 9;
  day = 23;
  hour = 12;
  minute = 34;
  second = 56;
  millisecond = 789;
  weekday = 4;
}

afternoon_valid : validate_clock uniform afternoon ≡ true
unfolding validate_clock
afternoon_valid = refl

decode_clock-encode_example :
    (decode_clock uniform none (encode afternoon) ≡ Clock.accept none afternoon)
    × (decode_clock uniform (some afternoon) (encode afternoon)
        ≡ Clock.accept (some (encode afternoon)) afternoon)
decode_clock-encode_example =
    decode_clock-encode uniform uniform-IsCalendar afternoon afternoon_valid

afternoon_octets :
    encode afternoon ≡ 0 ∷ 0x19 ∷ 0x26 ∷ 0x09 ∷ 0x23 ∷ 0x12 ∷ 0x34 ∷ 0x56 ∷ 0x78 ∷ 0x94 ∷ []
unfolding encode Clock.bcd
afternoon_octets = refl

minus_two : to_bytes true 2 (negsuc 1) ≡ ok (255 ∷ 254 ∷ [])
unfolding to_bytes
minus_two = refl

decode_integer-to_bytes_example :
    decode_integer
      (record { signed = true; width = 2 })
      (negsuc 1)
      ((7 ∷ []) ++ ((255 ∷ 254 ∷ []) ++ (9 ∷ [])))
      (length {A = ℕ} (7 ∷ []))
    ≡ ok (accept (255 ∷ 254 ∷ []) (negsuc 1))
decode_integer-to_bytes_example =
    decode_integer-to_bytes true 1 (negsuc 1) (7 ∷ []) (9 ∷ []) (255 ∷ 254 ∷ []) minus_two
