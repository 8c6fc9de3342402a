-- ===== src/Overlap/Served.antt =====
-- What the peer of integration/overlap_operations.py keeps and sends when it has served a history.
use lean_s.Prelude.{
  ℕ, zero, suc, ◌+◌, ◌<◌, ◌≡◌, refl, ap, ◌∙◌, List, [], ◌∷◌, ◌++◌, arith, ltb, slice,
}
use lean_s.Error.{ok, >>=-eq-ok, ok_inj, raise_if, value_error}
use lean_s.Bytes.{Bytes, byte_at}
use lean_s.Overlap.{
  Kind, Operation, reads, writes, bits, other, memory_size, initial_memory, payload, update_bit,
}
use lean_s.Overlap.Peer.{read, write, octet_of, serve_bit, serve_operation, serve_each, serve}
use lean_s.Overlap.Replace.{replace}
use lean_s.Overlap.Reads.{contents, contents-append, read-Answers}
use lean_s.Overlap.Writes.{write-Kept}

-- The memory that an operation leaves.
abbrev pub apply : Operation → Bytes → Bytes
apply operation memory = elim operation.kind [
  | reads ↦ memory
  | writes ↦ replace operation.start (payload operation.argument operation.size) memory
  | bits ↦
      replace operation.start
        (update_bit (byte_at memory operation.start) operation.size operation.argument ∷ []) memory
  | other ↦ memory
]

-- The octets that an operation reads.
abbrev pub observed : Operation → Bytes → Bytes
observed operation memory = elim operation.kind [
  | reads ↦ slice operation.start (operation.start + operation.size) memory
  | writes ↦ []
  | bits ↦
      slice operation.start (operation.start + 1) memory
      ++ slice operation.start (operation.start + 1) (apply operation memory)
  | other ↦ []
]

abbrev pub apply_each : List Operation → Bytes → Bytes
apply_each [] memory = memory
apply_each (operation ∷ operations) memory = apply_each operations (apply operation memory)

-- What a history reads, its final observation included.
abbrev pub observed_each : List Operation → Bytes → Bytes
observed_each [] memory = slice 0 memory_size memory
observed_each (operation ∷ operations) memory =
    observed operation memory ++ observed_each operations (apply operation memory)

octet_of-byte_at :
    (memory : Bytes) (start b : ℕ) → octet_of memory start ≡ ok b → b ≡ byte_at memory start
unfolding octet_of
octet_of-byte_at [] start b h = cc
octet_of-byte_at (x ∷ memory) zero b h = cc
octet_of-byte_at (x ∷ memory) (suc start) b h = octet_of-byte_at memory start b h

-- What serving comes to: the memory, and the octets that were read.
abbrev pub Answers : Bytes → Bytes → List Bytes × Bytes × List Bytes → Type 0
Answers memory octets r = (r.1 ≡ memory) × (contents r.2 ≡ octets)

write-Answers :
    (requests : List Bytes) (memory : Bytes) (start : ℕ) (content : Bytes) (pdu : ℕ)
    (r : List Bytes × Bytes × List Bytes)
    → 28 < pdu
    → write requests memory start 0 content pdu ≡ ok r
    → Answers (replace start content memory) [] r
write-Answers requests memory start content pdu r hp h =
    let (kept, silent) = write-Kept requests memory start 0 content pdu r hp (omega arith) h in
    let e : start + 0 ≡ start = omega arith in (kept ∙ ap (λ k. replace k content memory) e, silent)

bit-Answers :
    (memory : Bytes) (operation : Operation) (previous : ℕ) (before : List Bytes × List Bytes)
    (changed : List Bytes × Bytes × List Bytes) (after : List Bytes × List Bytes)
    → operation.kind ≡ bits
    → previous ≡ byte_at memory operation.start
    → contents before.1 ≡ slice operation.start (operation.start + 1) memory
    → changed.1
      ≡ replace operation.start (update_bit previous operation.size operation.argument ∷ []) memory
    → contents changed.2 ≡ []
    → contents after.1 ≡ slice operation.start (operation.start + 1) changed.1
    → Answers
        (apply operation memory)
        (observed operation memory)
        (after.0, changed.1, before.1 ++ (changed.2 ++ after.1))
bit-Answers memory operation previous before changed after kind here first kept silent second =
    rw (kind, ← here)
      (
        kept,
        contents-append before.1 (changed.2 ++ after.1)
            ∙ ap (◌++◌ (contents before.1))
                (contents-append changed.2 after.1 ∙ ap (λ k. k ++ contents after.1) silent)
            ∙ ap (λ k. k ++ contents after.1) first
            ∙ ap (◌++◌ (slice operation.start (operation.start + 1) memory))
                (second ∙ ap (slice operation.start (operation.start + 1)) kept),
      )

serve_bit-Answers :
    (requests : List Bytes) (memory : Bytes) (operation : Operation) (pdu : ℕ)
    (r : List Bytes × Bytes × List Bytes)
    → 28 < pdu
    → operation.kind ≡ bits
    → serve_bit requests memory operation pdu ≡ ok r
    → Answers (apply operation memory) (observed operation memory) r
unfolding serve_bit
serve_bit-Answers requests memory operation pdu r hp kind h =
    let start = operation.start in
    let (previous, e, h') = >>=-eq-ok (octet_of memory start) _ h in
    let (before, f, h'') = >>=-eq-ok (read requests memory start 0 1 pdu) _ h' in
    let updated = update_bit previous operation.size operation.argument in
    let (u, g, h''') = >>=-eq-ok (raise_if (ltb 255 updated) value_error) _ h'' in
    let (changed, k, h4) = >>=-eq-ok (write before.0 memory start 0 (updated ∷ []) pdu) _ h''' in
    let (after, l, last) = >>=-eq-ok (read changed.0 changed.1 start 0 1 pdu) _ h4 in
    let (kept, silent) = write-Answers before.0 memory start (updated ∷ []) pdu changed hp k in
    rw (← ok_inj last) (
      bit-Answers memory operation previous before changed after kind
        (octet_of-byte_at memory start previous e)
        (read-Answers requests memory start 1 pdu before f) kept silent
        (read-Answers changed.0 changed.1 start 1 pdu after l))

-- What serving one operation comes to.
serve_kind-Answers :
    (requests : List Bytes) (memory : Bytes) (kind : Kind) (identifier start size argument pdu : ℕ)
    (r : List Bytes × Bytes × List Bytes)
    → 28 < pdu
    → serve_operation requests memory
        (record {
          identifier = identifier;
          kind = kind;
          start = start;
          size = size;
          argument = argument;
        })
        pdu
      ≡ ok r
    → Answers
        (apply
          (record {
            identifier = identifier;
            kind = kind;
            start = start;
            size = size;
            argument = argument;
          })
          memory)
        (observed
          (record {
            identifier = identifier;
            kind = kind;
            start = start;
            size = size;
            argument = argument;
          })
          memory)
        r
unfolding serve_operation
serve_kind-Answers requests memory reads identifier start size argument pdu r hp h =
    let (rest, f, last) = >>=-eq-ok (read requests memory start 0 size pdu) _ h in
    rw (← ok_inj last) (refl, read-Answers requests memory start size pdu rest f)
serve_kind-Answers requests memory writes identifier start size argument pdu r hp h =
    write-Answers requests memory start (payload argument size) pdu r hp h
serve_kind-Answers requests memory bits identifier start size argument pdu r hp h =
    serve_bit-Answers requests memory
      (record {
        identifier = identifier;
        kind = bits;
        start = start;
        size = size;
        argument = argument;
      })
      pdu r hp refl h
serve_kind-Answers requests memory other identifier start size argument pdu r hp h = cc

pub serve_operation-Answers :
    (requests : List Bytes) (memory : Bytes) (operation : Operation) (pdu : ℕ)
    (r : List Bytes × Bytes × List Bytes)
    → 28 < pdu
    → serve_operation requests memory operation pdu ≡ ok r
    → Answers (apply operation memory) (observed operation memory) r
serve_operation-Answers requests memory operation pdu r hp h =
    serve_kind-Answers requests memory operation.kind operation.identifier operation.start
      operation.size operation.argument pdu r hp h

serve_each-Answers :
    (operations : List Operation) (requests : List Bytes) (memory : Bytes) (pdu : ℕ)
    (r : List Bytes × Bytes × List Bytes)
    → 28 < pdu
    → serve_each operations requests memory pdu ≡ ok r
    → Answers (apply_each operations memory) (observed_each operations memory) r
unfolding serve_each
serve_each-Answers [] requests memory pdu r hp h =
    let (rest, f, last) = >>=-eq-ok (read requests memory 0 0 memory_size pdu) _ h in
    rw (← ok_inj last) (refl, read-Answers requests memory 0 memory_size pdu rest f)
serve_each-Answers (operation ∷ operations) requests memory pdu r hp h =
    let (first, e, h') = >>=-eq-ok (serve_operation requests memory operation pdu) _ h in
    let (rest, f, last) = >>=-eq-ok (serve_each operations first.0 first.1 pdu) _ h' in
    let (here, seen) = serve_operation-Answers requests memory operation pdu first hp e in
    let (kept, behind) = serve_each-Answers operations first.0 first.1 pdu rest hp f in
    rw (← ok_inj last) (
      kept ∙ ap (apply_each operations) here,
      contents-append first.2 rest.2
          ∙ ap (λ k. k ++ contents rest.2) seen
          ∙ ap (◌++◌ (observed operation memory)) (behind ∙ ap (observed_each operations) here),
    )

-- With a PDU length above 28, a history that the peer has served to its end, whatever requests it
-- was sent, leaves the memory of the operations one after the other. The payloads of the packets
-- are, in order, the octets that each operation reads in the memory of that time, and at the end
-- the memory observed.
pub serve-Answers :
    (operations : List Operation) (requests : List Bytes) (pdu : ℕ)
    (r : List Bytes × Bytes × List Bytes)
    → 28 < pdu
    → serve operations requests pdu ≡ ok r
    → Answers (apply_each operations initial_memory) (observed_each operations initial_memory) r
unfolding serve
serve-Answers operations requests pdu r hp h =
    serve_each-Answers operations requests initial_memory pdu r hp h
