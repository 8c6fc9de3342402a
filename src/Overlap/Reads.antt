-- ===== src/Overlap/Reads.antt =====
-- What `_read` of integration/overlap_operations.py sends.
use Prim.Native.Nat.{min}
use lean_s.Prelude.{
  ℕ, zero, suc, ◌+◌, ◌-◌, ◌*◌, ◌≤◌, ◌≡◌, refl, sym, ap, ◌∙◌, true, false, List, [], ◌∷◌, ◌++◌,
  append_assoc, arith, ltb, drop-drop, take, drop, slice, Bool-cases, inl, inr,
}
use lean_s.Error.{ok, ◌>>=◌, >>=-eq-ok, raise_if, struct_error}
use lean_s.Bytes.{Bytes, pack_word}
use lean_s.Queue.Wire.{ack}
use lean_s.Overlap.Peer.{check_request, read_chunk, read}

-- The octets that the packets carry: a read's payload follows 18 octets, an acknowledged write has
-- fewer.
abbrev pub contents : List Bytes → Bytes
contents [] = []
contents (packet ∷ packets) = drop 18 packet ++ contents packets

pub contents-append : (a b : List Bytes) → contents (a ++ b) ≡ contents a ++ contents b
contents-append [] b = refl
contents-append (p ∷ a) b =
    ap (◌++◌ (drop 18 p)) (contents-append a b)
    ∙ sym (append_assoc (drop 18 p) (contents a) (contents b))

pub ack-content :
    (reference a b : ℕ) (content packet : Bytes)
    → ack reference (a ∷ b ∷ []) content ≡ ok packet
    → drop 14 packet ≡ content
unfolding ack
ack-content reference a b content packet h = ground arith

read_content :
    (reference n : ℕ) (bits_word content packet : Bytes)
    → pack_word n ≡ ok bits_word
    → ack reference (4 ∷ 1 ∷ []) (0xff ∷ 4 ∷ (bits_word ++ content)) ≡ ok packet
    → drop 18 packet ≡ content
unfolding ack
read_content reference n bits_word content packet e h = ground arith

read_chunk-content :
    (request memory : Bytes) (start offset count pdu : ℕ) (chunk : ℕ × Bytes)
    → read_chunk request memory start offset count pdu ≡ ok chunk
    → (chunk.0 ≡ min (pdu - 18) (count - offset))
      × (drop 18 chunk.1 ≡ slice (start + offset) (start + offset + chunk.0) memory)
unfolding read_chunk
read_chunk-content request memory start offset count pdu chunk h =
    let size = min (pdu - 18) (count - offset) in
    let (u, e, h') = >>=-eq-ok (raise_if (ltb pdu 18) struct_error) _ h in
    let (reference, f, h'') =
      >>=-eq-ok (check_request request false (start + offset) size pdu []) _ h' in
    let (word, g, h''') = >>=-eq-ok (pack_word (size * 8)) _ h'' in
    let content = slice (start + offset) (start + offset + size) memory in
    let (packet, k, last) =
      >>=-eq-ok (ack reference (4 ∷ 1 ∷ []) (0xff ∷ 4 ∷ (word ++ content))) _ h''' in
    let carried = read_content reference (size * 8) word content packet g k in
    let value : (size, packet) ≡ chunk = cc in (sym (ap (λ k. k.0) value), rw (← value) carried)

take-nil : (n : ℕ) → take {A = ℕ} n [] ≡ []
take-nil zero = refl
take-nil (suc n) = refl

take-take : (m n : ℕ) (xs : Bytes) → take m xs ++ take n (drop m xs) ≡ take (m + n) xs
take-take zero n xs = ap (λ k. take k xs) (omega arith)
take-take (suc m) n [] = take-nil n ∙ sym (take-nil (suc m + n))
take-take (suc m) n (x ∷ xs) =
    let e : suc m + n ≡ suc (m + n) = omega arith in rw e (ap (◌∷◌ x) (take-take m n xs))

slice-empty :
    (start offset count : ℕ) (memory : Bytes)
    → offset ≡ count
    → slice (start + offset) (start + count) memory ≡ []
slice-empty start offset count memory e =
    let none_left : start + count - (start + offset) ≡ 0 = omega (arith, e) in
    ap (λ k. take k (drop (start + offset) memory)) none_left

-- Two slices that meet.
slice-slice : (i j n : ℕ) (xs : Bytes) → i ≤ j → j ≤ n → slice i j xs ++ slice j n xs ≡ slice i n xs
slice-slice i j n xs hi hj =
    let e : j ≡ i + (j - i) = omega arith in
    let f : n - i ≡ j - i + (n - j) = omega arith in
    let further : drop j xs ≡ drop (j - i) (drop i xs) =
      ap (λ k. drop k xs) e ∙ sym (drop-drop i (j - i) xs) in
    rw (further, f) (take-take (j - i) (n - j) (drop i xs))

read-step :
    (request : Bytes) (requests : List Bytes) (memory : Bytes) (start offset count pdu : ℕ)
    → ltb offset count ≡ true
    → read (request ∷ requests) memory start offset count pdu ≡ (
        read_chunk request memory start offset count pdu >>= λ chunk.
        read requests memory start (offset + chunk.0) count pdu >>= λ rest.
        ok (rest.0, chunk.1 ∷ rest.1))
unfolding read
read-step request requests memory start offset count pdu more = rw (more, read) refl

read-contents :
    (requests : List Bytes) (memory : Bytes) (start offset count pdu : ℕ)
    (r : List Bytes × List Bytes)
    → offset ≤ count
    → read requests memory start offset count pdu ≡ ok r
    → contents r.1 ≡ slice (start + offset) (start + count) memory
unfolding read
read-contents [] memory start offset count pdu r ho h = elim (Bool-cases (ltb offset count)) [
  | inl more ↦ absurd (ground arith)
  | inr done ↦
      let e : offset ≡ count = ground arith in
      let nothing : r.1 ≡ [] = ground arith in
      ap contents nothing ∙ sym (slice-empty start offset count memory e)
]
read-contents (request ∷ requests) memory start offset count pdu r ho h =
    elim (Bool-cases (ltb offset count)) [
      | inl more ↦
          let h' = sym (read-step request requests memory start offset count pdu more) ∙ h in
          let (chunk, e, h'') = >>=-eq-ok (read_chunk request memory start offset count pdu) _ h' in
          let (size, carried) = read_chunk-content request memory start offset count pdu chunk e in
          let (rest, f, last) =
            >>=-eq-ok (read requests memory start (offset + chunk.0) count pdu) _ h'' in
          let within : offset + chunk.0 ≤ count = omega (arith, size) in
          let behind =
            read-contents requests memory start (offset + chunk.0) count pdu rest within f in
          let value : (rest.0, chunk.1 ∷ rest.1) ≡ r = cc in
          let meet : start + offset + chunk.0 ≡ start + (offset + chunk.0) = omega arith in
          let first : drop 18 chunk.1 ≡ slice (start + offset) (start + (offset + chunk.0)) memory =
            carried ∙ ap (λ k. slice (start + offset) k memory) meet in
          sym (ap (λ k. contents k.1) value)
          ∙ ap (λ k. k ++ contents rest.1) first
          ∙ ap (◌++◌ (slice (start + offset) (start + (offset + chunk.0)) memory)) behind
          ∙ slice-slice (start + offset) (start + (offset + chunk.0)) (start + count) memory
              (omega arith) (omega arith)
      | inr done ↦
          let e : offset ≡ count = ground arith in
          let nothing : r.1 ≡ [] = ground arith in
          ap contents nothing ∙ sym (slice-empty start offset count memory e)
    ]

pub read-Answers :
    (requests : List Bytes) (memory : Bytes) (start count pdu : ℕ) (r : List Bytes × List Bytes)
    → read requests memory start 0 count pdu ≡ ok r
    → contents r.1 ≡ slice start (start + count) memory
read-Answers requests memory start count pdu r h =
    let e : start + 0 ≡ start = omega arith in
    read-contents requests memory start 0 count pdu r (omega arith) h
    ∙ ap (λ k. slice k (start + count) memory) e
