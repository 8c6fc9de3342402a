-- ===== src/Overlap/Bits.antt =====
-- `update_bit` of integration/overlap_operations.py, on octets.
use lean_s.Prelude.{
  ℕ, zero, suc, ◌/◌, ◌%◌, ◌^◌, ◌<◌, ◌≡◌, refl, Bool, true, ◌&&◌, arith, ltb, ◌==◌, if◌then◌else◌,
  Bool-cases, inl, inr,
}
use lean_s.Overlap.{update_bit}

-- The digit of a number at a place.
abbrev pub digit : ℕ → ℕ → ℕ
digit value i = value / 2 ^ i % 2

-- Whether a result has the digits that it should have, at the lowest places.
has_digits : ℕ → ℕ → ℕ → ℕ → ℕ → Bool
has_digits zero result value bit wanted = true
has_digits (suc i) result value bit wanted =
    (digit result i == (if i == bit then wanted else digit value i))
    && has_digits i result value bit wanted

updated_well : ℕ → ℕ → ℕ → Bool
updated_well value bit enabled =
    ltb (update_bit value bit enabled) 256
    && has_digits 8 (update_bit value bit enabled) value bit enabled

-- the same for the lowest bits
bits_well : ℕ → ℕ → Bool
bits_well zero value = true
bits_well (suc bit) value =
    updated_well value bit 0 && updated_well value bit 1 && bits_well bit value

-- the same for the lowest values
octets_well : ℕ → Bool
octets_well zero = true
octets_well (suc value) = bits_well 8 value && octets_well value

all_octets : octets_well 256 ≡ true
unfolding octets_well bits_well updated_well has_digits update_bit
all_octets = refl

has_digits-at :
    (n i result value bit wanted : ℕ)
    → i < n
    → has_digits n result value bit wanted ≡ true
    → digit result i ≡ (if i == bit then wanted else digit value i)
unfolding has_digits
has_digits-at zero i result value bit wanted h k = absurd (omega arith)
has_digits-at (suc n) i result value bit wanted h k = elim (Bool-cases (i == n)) [
  | inl e ↦ let same : n ≡ i = ground arith in rw (← same) (ground arith)
  | inr e ↦ has_digits-at n i result value bit wanted (ground arith) (ground arith)
]

bits_well-at :
    (n bit value : ℕ)
    → bit < n
    → bits_well n value ≡ true
    → (updated_well value bit 0 ≡ true) × (updated_well value bit 1 ≡ true)
unfolding bits_well
bits_well-at zero bit value h k = absurd (omega arith)
bits_well-at (suc n) bit value h k = elim (Bool-cases (bit == n)) [
  | inl e ↦ let same : n ≡ bit = ground arith in rw (← same) (ground arith, ground arith)
  | inr e ↦ bits_well-at n bit value (ground arith) (ground arith)
]

octets_well-at : (n value : ℕ) → value < n → octets_well n ≡ true → bits_well 8 value ≡ true
unfolding octets_well
octets_well-at zero value h k = absurd (omega arith)
octets_well-at (suc n) value h k = elim (Bool-cases (value == n)) [
  | inl e ↦ let same : n ≡ value = ground arith in rw (← same) (ground arith)
  | inr e ↦ octets_well-at n value (ground arith) (ground arith)
]

-- the digit that a bit update sets
abbrev pub enabled_digit : ℕ → ℕ
enabled_digit zero = 0
enabled_digit (suc enabled) = 1

-- Only whether the argument is zero matters.
update_bit-enabled_digit :
    (value bit enabled : ℕ)
    → update_bit value bit enabled ≡ update_bit value bit (enabled_digit enabled)
unfolding update_bit
update_bit-enabled_digit value bit zero = refl
update_bit-enabled_digit value bit (suc enabled) = ground arith

updated_well-digit :
    (value bit enabled : ℕ)
    → value < 256
    → bit < 8
    → updated_well value bit (enabled_digit enabled) ≡ true
updated_well-digit value bit zero hv hb =
    (bits_well-at 8 bit value hb (octets_well-at 256 value hv all_octets)).0
updated_well-digit value bit (suc enabled) hv hb =
    (bits_well-at 8 bit value hb (octets_well-at 256 value hv all_octets)).1

-- In an octet, updating one of its eight bits leaves an octet whose digit at that place is 0 or 1,
-- as the argument is zero or not, and whose seven other digits are those before.
pub update_bit-digit :
    (value bit enabled i : ℕ)
    → value < 256
    → bit < 8
    → i < 8
    → (update_bit value bit enabled < 256)
      × (digit (update_bit value bit enabled) i
          ≡ (if i == bit then enabled_digit enabled else digit value i))
unfolding updated_well
update_bit-digit value bit enabled i hv hb hi =
    let well = updated_well-digit value bit enabled hv hb in
    let same = update_bit-enabled_digit value bit enabled in
    let wanted = enabled_digit enabled in
    rw same (
      ground (arith, well),
      has_digits-at 8 i (update_bit value bit wanted) value bit wanted hi (ground (arith, well)),
    )
