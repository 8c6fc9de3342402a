-- ===== src/Bytes.antt =====
-- Python's `bytes`, and what the sources call of `struct` and `int`: big-endian packing with its
-- range errors, and reading.
pub mod Laws
use lean_s.Prelude.{
  ℕ, zero, suc, ◌+◌, ◌*◌, ◌/◌, ◌%◌, ◌<◌, Bool, true, false, ◌&&◌, List, [], ◌∷◌, ltb, ◌==◌, get_or,
  if◌then◌else◌,
}
use lean_s.Error.{Result, ok, err, struct_error, overflow_error}

abbrev pub Bytes : Type 0
Bytes = List ℕ

-- Every element is an octet.
abbrev pub IsBytes : Bytes → Type 0
IsBytes [] = Unit
IsBytes (b ∷ bs) = (b < 256) × IsBytes bs

-- a == b on bytes
abbrev pub equal : Bytes → Bytes → Bool
equal [] [] = true
equal [] (y ∷ ys) = false
equal (x ∷ xs) [] = false
equal (x ∷ xs) (y ∷ ys) = x == y && equal xs ys

-- The two octets of a 16-bit word, high octet first.
abbrev pub word : ℕ → Bytes
word n = n / 256 ∷ n % 256 ∷ []

-- struct.pack(">H", n)
abbrev pub pack_word : ℕ → Result Bytes
pack_word n = if ltb n 65536 then ok (word n) else err struct_error

-- n.to_bytes(3, "big")
abbrev pub to_bytes_3 : ℕ → Result Bytes
to_bytes_3 n =
    if ltb n 16777216 then ok (n / 65536 ∷ n / 256 % 256 ∷ n % 256 ∷ []) else err overflow_error

-- the octet at an index that a length test has shown to be there
abbrev pub byte_at : Bytes → ℕ → ℕ
byte_at bs i = get_or bs i 0

-- the ">H" that struct.unpack reads at an index
abbrev pub word_at : Bytes → ℕ → ℕ
word_at bs i = byte_at bs i * 256 + byte_at bs (suc i)

abbrev pub from_bytes_acc : ℕ → Bytes → ℕ
from_bytes_acc n [] = n
from_bytes_acc n (b ∷ bs) = from_bytes_acc (n * 256 + b) bs

-- int.from_bytes(bs, "big")
abbrev pub from_bytes : Bytes → ℕ
from_bytes bs = from_bytes_acc 0 bs
