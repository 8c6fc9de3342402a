-- ===== src/Overlap/Writes.antt =====
-- What `_write` of integration/overlap_operations.py keeps of the memory and sends.
use Prim.Native.Nat.{min}
use lean_s.Prelude.{
  ℕ, zero, suc, ◌+◌, ◌-◌, ◌≤◌, ◌<◌, ◌≡◌, refl, sym, ap, ◌∙◌, true, List, [], ◌∷◌, ◌++◌, arith, ltb,
  length, length-take, length-drop, drop-drop, take, drop, slice, Bool-cases, inl, inr,
}
use lean_s.Error.{ok, ◌>>=◌, >>=-eq-ok, raise_if, struct_error}
use lean_s.Bytes.{Bytes}
use lean_s.Bytes.Laws.{take-drop}
use lean_s.Queue.Wire.{ack}
use lean_s.Overlap.Peer.{check_request, last_of, write_chunk, write}
use lean_s.Overlap.Replace.{replace, replace-replace}
use lean_s.Overlap.Check.{check_request-last}
use lean_s.Overlap.Reads.{contents, ack-content}

write_chunk-kept :
    (request memory : Bytes) (start offset : ℕ) (content : Bytes) (pdu : ℕ)
    (chunk : ℕ × Bytes × Bytes)
    → 28 < pdu
    → offset < length content
    → write_chunk request memory start offset content pdu ≡ ok chunk
    → (chunk.0 ≡ min (pdu - 28) (length content - offset))
      × (chunk.1 ≡ replace (start + offset) (slice offset (offset + chunk.0) content) memory)
      × (drop 18 chunk.2 ≡ [])
unfolding write_chunk
write_chunk-kept request memory start offset content pdu chunk hp ho h =
    let size = min (pdu - 28) (length content - offset) in
    let piece = slice offset (offset + size) content in
    let (u, e, h') = >>=-eq-ok (raise_if (ltb pdu 28) struct_error) _ h in
    let (reference, f, h'') =
      >>=-eq-ok (check_request request true (start + offset) size pdu piece) _ h' in
    let (packet, k, last) = >>=-eq-ok (ack reference (5 ∷ 1 ∷ []) (0xff ∷ [])) _ h'' in
    let sized : length piece ≡ size = omega (
      arith,
      length-take (offset + size - offset) (drop offset content),
      length-drop offset content,
    ) in
    let whole : last_of size request ≡ piece =
      ap (λ k. last_of k request) (sym sized)
      ∙ check_request-last request (start + offset) size pdu reference piece f
          (omega (arith, sized)) in
    let value : (
      size,
      take (start + offset) memory ++ (last_of size request ++ drop (start + offset + size) memory),
      packet,
    )
        ≡ chunk =
      cc in
    (
      sym (ap (λ k. k.0) value),
      rw (← value, whole, sized) refl,
      sym (ap (λ k. drop 18 k.2) value)
          ∙ sym (drop-drop 14 4 packet)
          ∙ ap (drop 4) (ack-content reference 5 1 (0xff ∷ []) packet k),
    )

write-step :
    (request : Bytes) (requests : List Bytes) (memory : Bytes) (start offset : ℕ) (content : Bytes)
    (pdu : ℕ)
    → ltb offset (length content) ≡ true
    → write (request ∷ requests) memory start offset content pdu ≡ (
        write_chunk request memory start offset content pdu >>= λ chunk.
        write requests chunk.1 start (offset + chunk.0) content pdu >>= λ rest.
        ok (rest.0, rest.1, chunk.2 ∷ rest.2))
unfolding write
write-step request requests memory start offset content pdu more = rw (more, write) refl

-- What a write keeps of the memory and sends.
abbrev pub Kept : ℕ → Bytes → Bytes → List Bytes × Bytes × List Bytes → Type 0
Kept k xs memory r = (r.1 ≡ replace k xs memory) × (contents r.2 ≡ [])

replace-nothing : (k : ℕ) (memory : Bytes) → memory ≡ replace k [] memory
replace-nothing k memory = let e : k + 0 ≡ k = omega arith in rw e (sym (take-drop k memory))

drop-nothing : (n : ℕ) (xs : Bytes) → length xs ≤ n → drop n xs ≡ []
drop-nothing zero [] h = refl
drop-nothing zero (x ∷ xs) h = absurd (omega arith)
drop-nothing (suc n) [] h = refl
drop-nothing (suc n) (x ∷ xs) h = drop-nothing n xs (omega arith)

Kept-done :
    (k offset : ℕ) (content memory : Bytes) (r : List Bytes × Bytes × List Bytes)
    → length content ≤ offset
    → r.1 ≡ memory
    → r.2 ≡ []
    → Kept k (drop offset content) memory r
Kept-done k offset content memory r h e f =
    (rw (drop-nothing offset content h) (e ∙ replace-nothing k memory), ap contents f)

replace-slices :
    (start offset n : ℕ) (content memory : Bytes)
    → offset + n ≤ length content
    → replace
        (start + (offset + n))
        (drop (offset + n) content)
        (replace (start + offset) (slice offset (offset + n) content) memory)
      ≡ replace (start + offset) (drop offset content) memory
replace-slices start offset n content memory h =
    let piece = slice offset (offset + n) content in
    let sized : length piece ≡ n = omega (
      arith,
      length-take (offset + n - offset) (drop offset content),
      length-drop offset content,
    ) in
    let place : start + (offset + n) ≡ start + offset + length piece = omega (arith, sized) in
    let count : offset + n - offset ≡ n = omega arith in
    let whole : piece ++ drop (offset + n) content ≡ drop offset content =
      rw (count, ← drop-drop) (take-drop n (drop offset content)) in
    ap (λ k. replace k (drop (offset + n) content) (replace (start + offset) piece memory)) place
    ∙ replace-replace (start + offset) piece (drop (offset + n) content) memory
    ∙ ap (λ k. replace (start + offset) k memory) whole

pub write-Kept :
    (requests : List Bytes) (memory : Bytes) (start offset : ℕ) (content : Bytes) (pdu : ℕ)
    (r : List Bytes × Bytes × List Bytes)
    → 28 < pdu
    → offset ≤ length content
    → write requests memory start offset content pdu ≡ ok r
    → Kept (start + offset) (drop offset content) memory r
unfolding write
write-Kept [] memory start offset content pdu r hp ho h =
    elim (Bool-cases (ltb offset (length content))) [
      | inl more ↦ absurd (ground arith)
      | inr done ↦
          Kept-done (start + offset) offset content memory r (ground arith) (ground arith)
            (ground arith)
    ]
write-Kept (request ∷ requests) memory start offset content pdu r hp ho h =
    elim (Bool-cases (ltb offset (length content))) [
      | inl more ↦
          let h' = sym (write-step request requests memory start offset content pdu more) ∙ h in
          let (chunk, e, h'') =
            >>=-eq-ok (write_chunk request memory start offset content pdu) _ h' in
          let (size, changed, nothing) =
            write_chunk-kept request memory start offset content pdu chunk hp (ground arith) e in
          let (rest, f, last) =
            >>=-eq-ok (write requests chunk.1 start (offset + chunk.0) content pdu) _ h'' in
          let (behind, silent) =
            write-Kept requests chunk.1 start (offset + chunk.0) content pdu rest hp
              (omega (arith, size)) f in
          let value : (rest.0, rest.1, chunk.2 ∷ rest.2) ≡ r = cc in
          (
            sym (ap (λ k. k.1) value)
                ∙ behind
                ∙ ap (replace (start + (offset + chunk.0)) (drop (offset + chunk.0) content))
                    changed
                ∙ replace-slices start offset chunk.0 content memory (omega (arith, size)),
            sym (ap (λ k. contents k.2) value) ∙ ap (λ k. k ++ contents rest.2) nothing ∙ silent,
          )
      | inr done ↦
          Kept-done (start + offset) offset content memory r (ground arith) (ground arith)
            (ground arith)
    ]
