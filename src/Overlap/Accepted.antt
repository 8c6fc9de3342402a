-- ===== src/Overlap/Accepted.antt =====
-- A client whose requests the peer of integration/overlap_operations.py serves.
use Prim.Native.Nat.{min}
use lean_s.Prelude.{
  ℕ, zero, suc, ◌+◌, ◌-◌, ◌*◌, ◌/◌, ◌%◌, ◌≤◌, ◌<◌, ◌≡◌, refl, true, false, List, [], ◌∷◌, ◌++◌,
  arith, ltb, length, length-take, length-drop, take, drop, slice, Bool-cases, inl, inr,
}
use lean_s.Error.{ok}
use lean_s.Bytes.{Bytes}
use lean_s.Queue.Wire.{ack}
use lean_s.Overlap.Peer.{read_chunk, read, last_of, write_chunk, write}
use lean_s.Overlap.Check.{
  read_tail, write_tail, request_with, check_request-read, check_request-write,
}

ack-ok :
    (reference a b : ℕ) (content : Bytes)
    → reference < 65536
    → length content < 65536
    → (packet : Bytes) × (ack reference (a ∷ b ∷ []) content ≡ ok packet)
unfolding ack
ack-ok reference a b content hr hl =
    let fits : ltb reference 65536 ≡ true = ground arith in
    let fits' : ltb (length content) 65536 ≡ true = ground arith in
    (
      0x32
          ∷ 3
          ∷ 0
          ∷ 0
          ∷ reference / 256
          ∷ reference % 256
          ∷ 0
          ∷ 2
          ∷ length content / 256
          ∷ length content % 256
          ∷ 0
          ∷ 0
          ∷ a
          ∷ b
          ∷ content,
      rw (fits, fits') refl,
    )

module _ (reference pdu : ℕ) (hr : reference < 65536) (low : 28 < pdu) (high : pdu < 8192) where
  read_chunk-ok :
      (memory : Bytes) (start offset count : ℕ)
      → start + count ≤ 2097152
      → offset < count
      → (request packet : Bytes) × (read_chunk request memory start offset count pdu
          ≡ ok (min (pdu - 18) (count - offset), packet))
  unfolding read_chunk
  read_chunk-ok memory start offset count hs ho =
      let size = min (pdu - 18) (count - offset) in
      let content = slice (start + offset) (start + offset + size) memory in
      let wide : ltb pdu 18 ≡ false = ground arith in
      let fits : ltb (size * 8) 65536 ≡ true = ground arith in
      let checked =
        check_request-read (start + offset) size pdu reference (omega arith) (omega arith)
          (omega arith) in
      let short : length (0xff ∷ 4 ∷ size * 8 / 256 ∷ size * 8 % 256 ∷ content) < 65536 = omega (
        arith,
        length-take (start + offset + size - (start + offset)) (drop (start + offset) memory),
      ) in
      let (packet, e) =
        ack-ok reference 4 1 (0xff ∷ 4 ∷ size * 8 / 256 ∷ size * 8 % 256 ∷ content) hr short in
      (
        request_with reference (read_tail (start + offset) size),
        packet,
        rw (wide, checked, fits, e) refl,
      )

  -- Requests that a read takes in, whatever follows them.
  abbrev pub Reads : Bytes → ℕ → ℕ → ℕ → Type 0
  Reads memory start offset count =
      (requests packets : List Bytes) × ((rest : List Bytes)
        → read (requests ++ rest) memory start offset count pdu ≡ ok (rest, packets))

  read-done :
      (memory : Bytes) (start offset count : ℕ) (rest : List Bytes)
      → ltb offset count ≡ false
      → read rest memory start offset count pdu ≡ ok (rest, [])
  unfolding read
  read-done memory start offset count [] done = rw (done) refl
  read-done memory start offset count (request ∷ rest) done = rw (done, read) refl

  read-next :
      (memory : Bytes) (start offset count size : ℕ) (request packet : Bytes)
      → ltb offset count ≡ true
      → read_chunk request memory start offset count pdu ≡ ok (size, packet)
      → Reads memory start (offset + size) count
      → Reads memory start offset count
  unfolding read
  read-next memory start offset count size request packet more e (requests, packets, h) =
      (request ∷ requests, packet ∷ packets, λ rest. rw (more, e, h rest, read) refl)

  pub read-Reads :
      (n : ℕ) (memory : Bytes) (start offset count : ℕ)
      → start + count ≤ 2097152
      → count - offset ≤ n
      → Reads memory start offset count
  read-Reads zero memory start offset count hs hn =
      ([], [], λ rest. read-done memory start offset count rest (ground arith))
  read-Reads (suc n) memory start offset count hs hn = elim (Bool-cases (ltb offset count)) [
    | inr done ↦ ([], [], λ rest. read-done memory start offset count rest done)
    | inl more ↦
        let (request, packet, e) = read_chunk-ok memory start offset count hs (ground arith) in
        let size = min (pdu - 18) (count - offset) in
        let behind = read-Reads n memory start (offset + size) count hs (ground arith) in
        read-next memory start offset count size request packet more e behind
  ]

  write_chunk-ok :
      (memory : Bytes) (start offset : ℕ) (content : Bytes)
      → start + length content ≤ 2097152
      → offset < length content
      → (request changed packet : Bytes) × (write_chunk request memory start offset content pdu
          ≡ ok (min (pdu - 28) (length content - offset), changed, packet))
  unfolding write_chunk
  write_chunk-ok memory start offset content hs ho =
      let size = min (pdu - 28) (length content - offset) in
      let piece = slice offset (offset + size) content in
      let wide : ltb pdu 28 ≡ false = ground arith in
      let sized : length piece ≡ size = omega (
        arith,
        length-take (offset + size - offset) (drop offset content),
        length-drop offset content,
      ) in
      let request = request_with reference (write_tail (start + offset) size piece) in
      let checked =
        check_request-write (start + offset) size pdu reference piece (omega arith) (omega arith)
          sized (omega arith) in
      let (packet, e) = ack-ok reference 5 1 (0xff ∷ []) hr (omega arith) in
      (
        request,
        take (start + offset) memory
            ++ (last_of size request ++ drop (start + offset + size) memory),
        packet,
        rw (wide, checked, e) refl,
      )

  -- Requests that a write takes in, whatever follows them.
  abbrev pub Writes : Bytes → ℕ → ℕ → Bytes → Type 0
  Writes memory start offset content =
      (requests : List Bytes) × (changed : Bytes) × (packets : List Bytes) × ((rest : List Bytes)
        → write (requests ++ rest) memory start offset content pdu ≡ ok (rest, changed, packets))

  write-done :
      (memory : Bytes) (start offset : ℕ) (content : Bytes) (rest : List Bytes)
      → ltb offset (length content) ≡ false
      → write rest memory start offset content pdu ≡ ok (rest, memory, [])
  unfolding write
  write-done memory start offset content [] done = rw (done) refl
  write-done memory start offset content (request ∷ rest) done = rw (done, write) refl

  write-next :
      (memory : Bytes) (start offset : ℕ) (content : Bytes) (size : ℕ)
      (request changed packet : Bytes)
      → ltb offset (length content) ≡ true
      → write_chunk request memory start offset content pdu ≡ ok (size, changed, packet)
      → Writes changed start (offset + size) content
      → Writes memory start offset content
  unfolding write
  write-next memory start offset content size request changed packet more e
        (requests, last, packets, h) =
      (request ∷ requests, last, packet ∷ packets, λ rest. rw (more, e, h rest, write) refl)

  pub write-Writes :
      (n : ℕ) (memory : Bytes) (start offset : ℕ) (content : Bytes)
      → start + length content ≤ 2097152
      → length content - offset ≤ n
      → Writes memory start offset content
  write-Writes zero memory start offset content hs hn =
      ([], memory, [], λ rest. write-done memory start offset content rest (ground arith))
  write-Writes (suc n) memory start offset content hs hn =
      elim (Bool-cases (ltb offset (length content))) [
        | inr done ↦ ([], memory, [], λ rest. write-done memory start offset content rest done)
        | inl more ↦
            let (request, changed, packet, e) =
              write_chunk-ok memory start offset content hs (ground arith) in
            let size = min (pdu - 28) (length content - offset) in
            write-next memory start offset content size request changed packet more e
              (write-Writes n changed start (offset + size) content hs (ground arith))
      ]
