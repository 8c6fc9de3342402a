-- ===== src/Overlap/Histories.antt =====
-- Histories that a client can have served in full.
use lean_s.Prelude.{
  ℕ, zero, suc, ◌+◌, ◌*◌, ◌≤◌, ◌<◌, ◌≡◌, refl, ap, ◌∙◌, false, List, [], ◌∷◌, ◌++◌, append_assoc,
  arith, ltb, length, length-append, length-take, length-drop, take, drop, le→ltb,
}
use lean_s.Error.{ok}
use lean_s.Bytes.{Bytes, IsBytes, byte_at}
use lean_s.Bytes.Laws.{IsBytes-append, IsBytes-take, IsBytes-drop, byte_at-lt}
use lean_s.Overlap.{
  Kind, Operation, reads, writes, bits, other, memory_size, pattern_from, initial_memory, payload,
  update_bit,
}
use lean_s.Overlap.Bits.{update_bit-digit}
use lean_s.Overlap.Peer.{octet_of, serve_bit, serve_operation, serve_each, serve}
use lean_s.Overlap.Replace.{replace}
use lean_s.Overlap.Reads.{contents}
use lean_s.Overlap.Served.{apply, apply_each, observed_each, serve_operation-Answers, serve-Answers}
use lean_s.Overlap.Accepted.{read-Reads, write-Writes}

-- The memory of the peer: 2048 octets.
abbrev IsMemory : Bytes → Type 0
IsMemory memory = IsBytes memory × (length memory ≡ memory_size)

-- An operation on the memory: of a known kind, within the bounds.
abbrev pub IsWithin : Operation → Type 0
IsWithin operation = elim operation.kind [
  | reads ↦ operation.start + operation.size ≤ memory_size
  | writes ↦ operation.start + operation.size ≤ memory_size
  | bits ↦ (operation.start < memory_size) × (operation.size < 8)
  | other ↦ ⊥
]

abbrev pub AreWithin : List Operation → Type 0
AreWithin [] = Unit
AreWithin (operation ∷ operations) = IsWithin operation × AreWithin operations

length-pattern_from : (factor offset n index : ℕ) → length (pattern_from factor offset n index) ≡ n
unfolding pattern_from
length-pattern_from factor offset zero index = refl
length-pattern_from factor offset (suc n) index =
    ap suc (length-pattern_from factor offset n (index + 1))

pattern_from-IsBytes : (factor offset n index : ℕ) → IsBytes (pattern_from factor offset n index)
unfolding pattern_from
pattern_from-IsBytes factor offset zero index = tt
pattern_from-IsBytes factor offset (suc n) index =
    (omega arith, pattern_from-IsBytes factor offset n (index + 1))

replace-IsMemory :
    (k : ℕ) (xs memory : Bytes)
    → k + length xs ≤ memory_size
    → IsBytes xs
    → IsMemory memory
    → IsMemory (replace k xs memory)
replace-IsMemory k xs memory hk hx (hb, hl) = (
  IsBytes-append (take k memory) (xs ++ drop (k + length xs) memory) (IsBytes-take k memory hb)
      (IsBytes-append xs (drop (k + length xs) memory) hx (IsBytes-drop (k + length xs) memory hb)),
  omega (
    arith,
    length-append (take k memory) (xs ++ drop (k + length xs) memory),
    length-append xs (drop (k + length xs) memory),
    length-take k memory,
    length-drop (k + length xs) memory,
    hl,
    hk,
  ),
)

octet_of-byte_at :
    (memory : Bytes) (start : ℕ)
    → start < length memory
    → octet_of memory start ≡ ok (byte_at memory start)
unfolding octet_of
octet_of-byte_at [] start h = absurd (omega arith)
octet_of-byte_at (x ∷ memory) zero h = refl
octet_of-byte_at (x ∷ memory) (suc start) h = octet_of-byte_at memory start (omega arith)

apply-IsMemory :
    (kind : Kind) (identifier start size argument : ℕ) (memory : Bytes)
    → IsWithin (record {
      identifier = identifier;
      kind = kind;
      start = start;
      size = size;
      argument = argument;
    })
    → IsMemory memory
    → IsMemory (
        apply
          (record {
            identifier = identifier;
            kind = kind;
            start = start;
            size = size;
            argument = argument;
          })
          memory)
unfolding payload
apply-IsMemory reads identifier start size argument memory h m = m
apply-IsMemory writes identifier start size argument memory h m =
    replace-IsMemory start (payload argument size) memory
      (omega (arith, h, length-pattern_from 43 (argument * 17) size 0))
      (pattern_from-IsBytes 43 (argument * 17) size 0) m
apply-IsMemory bits identifier start size argument memory (h, k) m =
    let octet = byte_at-lt memory start m.0 in
    replace-IsMemory start (update_bit (byte_at memory start) size argument ∷ []) memory
      (omega (arith, h))
      ((update_bit-digit (byte_at memory start) size argument 0 octet k (omega arith)).0, tt) m
apply-IsMemory other identifier start size argument memory h m = absurd h

module _ (reference pdu : ℕ) (hr : reference < 65536) (low : 28 < pdu) (high : pdu < 8192) where
  -- Requests that an operation takes in, whatever follows them.
  abbrev Serves : Operation → Bytes → Type 0
  Serves operation memory =
      (requests : List Bytes) × (changed : Bytes) × (packets : List Bytes) × ((rest : List Bytes)
        → serve_operation (requests ++ rest) memory operation pdu ≡ ok (rest, changed, packets))

  serve_bit-ok :
      (memory : Bytes) (operation : Operation)
      → operation.start < memory_size
      → operation.size < 8
      → IsMemory memory
      → (requests : List Bytes) × (changed : Bytes) × (packets : List Bytes) × ((rest : List Bytes)
          → serve_bit (requests ++ rest) memory operation pdu ≡ ok (rest, changed, packets))
  unfolding serve_bit
  serve_bit-ok memory operation h k (hb, hl) =
      let start = operation.start in
      let previous = octet_of-byte_at memory start (omega (arith, h, hl)) in
      let updated = update_bit (byte_at memory start) operation.size operation.argument in
      let octet =
        update_bit-digit (byte_at memory start) operation.size operation.argument 0
          (byte_at-lt memory start hb) k (omega arith) in
      let fits : ltb 255 updated ≡ false = le→ltb 255 updated (omega (arith, octet.0)) in
      let (r1, p1, h1) =
        read-Reads reference pdu hr low high 1 memory start 0 1 (omega (arith, h)) (omega arith) in
      let (r2, changed, p2, h2) =
        write-Writes reference pdu hr low high 1 memory start 0 (updated ∷ []) (omega (arith, h))
          (omega arith) in
      let (r3, p3, h3) =
        read-Reads reference pdu hr low high 1 changed start 0 1 (omega (arith, h)) (omega arith) in
      (
        r1 ++ (r2 ++ r3),
        changed,
        p1 ++ (p2 ++ p3),
        λ rest.
            rw
              (
                append_assoc r1 (r2 ++ r3) rest,
                append_assoc r2 r3 rest,
                previous,
                h1 (r2 ++ (r3 ++ rest)),
                fits,
                h2 (r3 ++ rest),
                h3 rest,
              )
              refl,
      )

  serve_kind-Serves :
      (kind : Kind) (identifier start size argument : ℕ) (memory : Bytes)
      → IsWithin (record {
        identifier = identifier;
        kind = kind;
        start = start;
        size = size;
        argument = argument;
      })
      → IsMemory memory
      → Serves
          (record {
            identifier = identifier;
            kind = kind;
            start = start;
            size = size;
            argument = argument;
          })
          memory
  unfolding serve_operation payload
  serve_kind-Serves reads identifier start size argument memory h m =
      let (requests, packets, e) =
        read-Reads reference pdu hr low high size memory start 0 size (omega (arith, h))
          (omega arith) in
      (requests, memory, packets, λ rest. rw (e rest) refl)
  serve_kind-Serves writes identifier start size argument memory h m =
      let sized = length-pattern_from 43 (argument * 17) size 0 in
      write-Writes reference pdu hr low high size memory start 0 (payload argument size)
        (omega (arith, h, sized)) (omega (arith, sized))
  serve_kind-Serves bits identifier start size argument memory (h, k) m =
      serve_bit-ok memory
        (record {
          identifier = identifier;
          kind = bits;
          start = start;
          size = size;
          argument = argument;
        })
        h k m
  serve_kind-Serves other identifier start size argument memory h m = absurd h

  serve_each-ok :
      (operations : List Operation) (memory : Bytes)
      → AreWithin operations
      → IsMemory memory
      → (requests : List Bytes) × (changed : Bytes) × (packets : List Bytes) × (serve_each
            operations requests memory pdu
          ≡ ok ([], changed, packets))
  unfolding serve_each
  serve_each-ok [] memory h m =
      let (requests, packets, e) =
        read-Reads reference pdu hr low high memory_size memory 0 0 memory_size (omega arith)
          (omega arith) in
      (requests ++ [], memory, packets, rw (e []) refl)
  serve_each-ok (operation ∷ operations) memory (h, hs) m =
      let (r1, changed, p1, e) =
        serve_kind-Serves operation.kind operation.identifier operation.start operation.size
          operation.argument memory h m in
      let kept : changed ≡ apply operation memory =
        (serve_operation-Answers (r1 ++ []) memory operation pdu ([], changed, p1) low (e [])).0 in
      let m' : IsMemory changed = rw kept (
        apply-IsMemory operation.kind operation.identifier operation.start operation.size
          operation.argument memory h m) in
      let (r2, last, p2, f) = serve_each-ok operations changed hs m' in
      (r1 ++ r2, last, p1 ++ p2, rw (e r2, f) refl)

  -- For every history of operations within the memory, whatever reference below 65536 and PDU
  -- length above 28 and below 8192, there are requests that the peer takes in to the last one.
  -- The memory that it leaves is that of the operations one after the other. The payloads of its
  -- packets are, in order, what each operation reads and the whole memory at the end.
  pub serve-served :
      (operations : List Operation)
      → AreWithin operations
      → (requests packets : List Bytes) × (serve operations requests pdu
          ≡ ok ([], apply_each operations initial_memory, packets))
        × (contents packets ≡ observed_each operations initial_memory)
  unfolding serve initial_memory
  serve-served operations h =
      let m : IsMemory initial_memory =
        (pattern_from-IsBytes 29 113 memory_size 0, length-pattern_from 29 113 memory_size 0) in
      let (requests, changed, packets, e) = serve_each-ok operations initial_memory h m in
      let (kept, seen) = serve-Answers operations requests pdu ([], changed, packets) low e in
      (requests, packets, e ∙ ap (λ k. ok ([], k, packets)) kept, seen)
