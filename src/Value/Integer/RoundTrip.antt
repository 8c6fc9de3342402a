-- ===== src/Value/Integer/RoundTrip.antt =====
-- An integer is read back from the octets that it is written to.
use native.Mathlib.Nat.{pow-suc}
use lean_s.Prelude.{
  ℕ, zero, suc, ◌+◌, ◌-◌, ◌*◌, ◌/◌, ◌%◌, ◌^◌, le→ltb, drop-append, ◌<◌, ◌≡◌, refl, ◌∙◌, ap, Bool,
  true, false, [], ◌∷◌, ◌++◌, arith, length, length-append, le→ltb, drop-append,
}
use lean_s.Error.{ok}
use lean_s.Bytes.{Bytes, from_bytes, from_bytes_acc}
use lean_s.Bytes.Laws.{slice-section}
use lean_s.Value.Integer.{ℤ, pos, negsuc, octets_of, read_integer, to_bytes, accept, decode_integer}

from_bytes_acc-concat :
    (n : ℕ) (bs : Bytes) (b : ℕ) → from_bytes_acc n (bs ++ b ∷ []) ≡ from_bytes_acc n bs * 256 + b
from_bytes_acc-concat n [] b = refl
from_bytes_acc-concat n (c ∷ bs) b = from_bytes_acc-concat (n * 256 + c) bs b

length-octets_of : (width n : ℕ) → length (octets_of width n) ≡ width
unfolding octets_of
length-octets_of zero n = refl
length-octets_of (suc width) n = omega (
  arith,
  length-octets_of width (n / 256),
  length-append (octets_of width (n / 256)) (n % 256 ∷ []),
)

from_bytes-octets_of : (width n : ℕ) → n < 256 ^ width → from_bytes (octets_of width n) ≡ n
unfolding octets_of
from_bytes-octets_of zero n h = omega arith
from_bytes-octets_of (suc width) n h =
    let power : 256 ^ suc width ≡ 256 ^ width * 256 = pow-suc 256 width in
    let ih = from_bytes-octets_of width (n / 256) (omega arith) in
    from_bytes_acc-concat 0 (octets_of width (n / 256)) (n % 256) ∙ omega (arith, ih)

-- What the octets of a number say of it, under the modulus that `read_integer` takes from them.
written :
    (width n : ℕ) (bs : Bytes)
    → n < 256 ^ width
    → octets_of width n ≡ bs
    → (from_bytes bs ≡ n) × (256 ^ length bs ≡ 256 ^ width)
written width n bs below e =
    rw (← e) (from_bytes-octets_of width n below, ap (λ k. 256 ^ k) (length-octets_of width n))

-- Every integer that a codec of at least one octet can write is read back from those octets.
pub read_integer-to_bytes :
    (signed : Bool) (width : ℕ) (v : ℤ) (bs : Bytes)
    → to_bytes signed (suc width) v ≡ ok bs
    → read_integer signed bs ≡ v
unfolding to_bytes read_integer
read_integer-to_bytes false width (pos n) bs h = ground (arith, written (suc width) n bs)
read_integer-to_bytes false width (negsuc n) bs h = cc
read_integer-to_bytes true width (pos n) bs h = ground (arith, written (suc width) n bs)
read_integer-to_bytes true width (negsuc n) bs h =
    let modulus = 256 ^ suc width in
    let power : modulus ≡ 256 ^ width * 256 = pow-suc 256 width in
    ground (arith, power, written (suc width) (modulus - n - 1) bs)

length-to_bytes :
    (signed : Bool) (width : ℕ) (v : ℤ) (bs : Bytes)
    → to_bytes signed width v ≡ ok bs
    → length bs ≡ width
unfolding to_bytes
length-to_bytes false width (pos n) bs h = ground (arith, length-octets_of width n)
length-to_bytes false width (negsuc n) bs h = cc
length-to_bytes true width (pos n) bs h = ground (arith, length-octets_of width n)
length-to_bytes true width (negsuc n) bs h =
    ground (arith, length-octets_of width (256 ^ width - n - 1))

-- Decoding the octets that an integer is written to, wherever they stand, accepts that integer
-- and gives the same octets for it.
pub decode_integer-to_bytes :
    (signed : Bool) (width : ℕ) (v : ℤ) (before after bs : Bytes)
    → to_bytes signed (suc width) v ≡ ok bs
    → decode_integer
        (record { signed = signed; width = suc width })
        v
        (before ++ (bs ++ after))
        (length before)
      ≡ ok (accept bs v)
unfolding decode_integer
decode_integer-to_bytes signed width v before after bs h =
    let size : length bs ≡ suc width = length-to_bytes signed (suc width) v bs h in
    let whole = before ++ (bs ++ after) in
    let read =
      slice-section (length before) whole bs after (drop-append (length before) before _ refl) in
    let long = length-append before (bs ++ after) in
    let rest = length-append bs after in
    rw (← size) (
      rw read (
        rw (le→ltb (length whole) (length before + length bs) (omega (arith, long, rest)))
          (rw (size, h, read_integer-to_bytes signed width v bs h) refl)))
