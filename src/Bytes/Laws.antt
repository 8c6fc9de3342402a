-- ===== src/Bytes/Laws.antt =====
-- Laws of bytes: the comparison decides equality, a packed word reads back, octets stay octets.
use lean_s.Prelude.{
  ◌-◌, slice, take-append, drop-append, drop-drop, ℕ, zero, suc, ◌+◌, ◌*◌, ◌/◌, ◌%◌, ◌<◌, ◌≡◌, refl,
  ap, ◌∙◌, true, [], ◌∷◌, ◌++◌, arith, length, take, drop, get_or,
}
use lean_s.Bytes.{Bytes, IsBytes, equal, word, byte_at}

pub equal_refl : (a : Bytes) → equal a a ≡ true
equal_refl [] = refl
equal_refl (x ∷ a) = ground (arith, equal_refl a)

pub eq_of_equal : (a b : Bytes) → equal a b ≡ true → a ≡ b
eq_of_equal [] [] h = refl
eq_of_equal [] (y ∷ b) h = cc
eq_of_equal (x ∷ a) [] h = cc
eq_of_equal (x ∷ a) (y ∷ b) h = ground (arith, eq_of_equal a b)

pub length-word : (n : ℕ) → length (word n) ≡ 2
length-word n = refl

-- The word that is packed is the word that is read.
pub word_parts : (n : ℕ) → n / 256 * 256 + n % 256 ≡ n
word_parts n = omega arith

pub IsBytes-append : (a b : Bytes) → IsBytes a → IsBytes b → IsBytes (a ++ b)
IsBytes-append [] b h k = k
IsBytes-append (x ∷ a) b (h, hs) k = (h, IsBytes-append a b hs k)

pub IsBytes-take : (n : ℕ) (a : Bytes) → IsBytes a → IsBytes (take n a)
IsBytes-take zero a h = tt
IsBytes-take (suc n) [] h = tt
IsBytes-take (suc n) (x ∷ a) (h, hs) = (h, IsBytes-take n a hs)

pub IsBytes-drop : (n : ℕ) (a : Bytes) → IsBytes a → IsBytes (drop n a)
IsBytes-drop zero a h = h
IsBytes-drop (suc n) [] h = tt
IsBytes-drop (suc n) (x ∷ a) (h, hs) = IsBytes-drop n a hs

pub byte_at-lt : (a : Bytes) (i : ℕ) → IsBytes a → byte_at a i < 256
byte_at-lt [] i h = omega arith
byte_at-lt (x ∷ a) zero h = h.0
byte_at-lt (x ∷ a) (suc i) h = byte_at-lt a i h.1

pub byte_at-drop : (a : Bytes) (m i : ℕ) → byte_at (drop m a) i ≡ byte_at a (m + i)
byte_at-drop a zero i = ap (λ k. get_or a k 0) (omega arith)
byte_at-drop [] (suc m) i = refl
byte_at-drop (x ∷ a) (suc m) i =
    byte_at-drop a m i
    ∙ ap (λ k. get_or (x ∷ a) k 0) (let e : suc (m + i) ≡ suc m + i = omega arith in e)

-- A section that begins at h, and what follows it.
pub slice-section :
    (h : ℕ) (xs parameters content : Bytes)
    → drop h xs ≡ parameters ++ content
    → slice h (h + length parameters) xs ≡ parameters
slice-section h xs parameters content e =
    let n : h + length parameters - h ≡ length parameters = omega arith in
    rw (n, e) (take-append (length parameters) parameters content refl)

pub drop-section :
    (h : ℕ) (xs parameters content : Bytes)
    → drop h xs ≡ parameters ++ content
    → drop (h + length parameters) xs ≡ content
drop-section h xs parameters content e =
    rw (← drop-drop, e) (drop-append (length parameters) parameters content refl)

pub take-drop : (n : ℕ) (xs : Bytes) → take n xs ++ drop n xs ≡ xs
take-drop zero xs = refl
take-drop (suc n) [] = refl
take-drop (suc n) (x ∷ xs) = ap (◌∷◌ x) (take-drop n xs)
