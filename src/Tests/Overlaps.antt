-- ===== src/Tests/Overlaps.antt =====
-- The overlap peer at concrete histories.
use lean_s.Prelude.{◌<◌, ◌≡◌, refl, List, [], ◌∷◌, ◌==◌, if◌then◌else◌, arith}
use lean_s.Error.{ok}
use lean_s.Bytes.{Bytes}
use lean_s.Overlap.{
  Operation, reads, writes, bits, initial_memory, payload, pattern_from, update_bit,
}
use lean_s.Overlap.Bits.{digit, enabled_digit, update_bit-digit}
use lean_s.Overlap.Check.{read_tail, write_tail, request_with}
use lean_s.Overlap.Peer.{
  serve, serve_each, serve_operation, read, write, read_chunk, write_chunk, check_request,
  expected_request, written, last_of,
}
use lean_s.Queue.Wire.{ack}
use lean_s.Overlap.Replace.{replace}
use lean_s.Overlap.Reads.{contents}
use lean_s.Overlap.Served.{apply_each, observed_each, Answers, serve-Answers}
use lean_s.Overlap.Histories.{serve-served}

-- a write across two chunks, a bit in it, and a read around it
abbrev overlapping : List Operation
overlapping =
    record { identifier = 1; kind = writes; start = 20; size = 300; argument = 9 }
    ∷ record { identifier = 2; kind = bits; start = 231; size = 6; argument = 1 }
    ∷ record { identifier = 3; kind = reads; start = 18; size = 310; argument = 0 }
    ∷ []

serve-served_example :
    (requests packets : List Bytes) × (serve overlapping requests 240
      ≡ ok ([], apply_each overlapping initial_memory, packets))
    × (contents packets ≡ observed_each overlapping initial_memory)
serve-served_example =
    serve-served 7 240 (omega arith) (omega arith) (omega arith) overlapping
      (omega arith, ((omega arith, omega arith), (omega arith, tt)))

update_bit-digit_example :
    (update_bit 255 3 0 < 256)
    × (digit (update_bit 255 3 0) 3 ≡ (if 3 == 3 then enabled_digit 0 else digit 255 3))
update_bit-digit_example = update_bit-digit 255 3 0 3 (omega arith) (omega arith) (omega arith)

abbrev one_write : List Operation
one_write = record { identifier = 1; kind = writes; start = 5; size = 1; argument = 1 } ∷ []

-- the memory afterwards
abbrev changed : Bytes
changed = replace 5 (17 ∷ []) (pattern_from 29 113 2048 0)

-- the requests of a client with long PDUs, and the packets that it is sent
abbrev requests : List Bytes
requests = request_with 7 (write_tail 5 1 (17 ∷ [])) ∷ request_with 8 (read_tail 0 2048) ∷ []

abbrev packets : List Bytes
packets =
    (0x32 ∷ 3 ∷ 0 ∷ 0 ∷ 0 ∷ 7 ∷ 0 ∷ 2 ∷ 0 ∷ 1 ∷ 0 ∷ 0 ∷ 5 ∷ 1 ∷ 0xff ∷ [])
    ∷ (0x32 ∷ 3 ∷ 0 ∷ 0 ∷ 0 ∷ 8 ∷ 0 ∷ 2 ∷ 8 ∷ 4 ∷ 0 ∷ 0 ∷ 4 ∷ 1 ∷ 0xff ∷ 4 ∷ 64 ∷ 0 ∷ changed)
    ∷ []

served : serve one_write requests 4000 ≡ ok ([], changed, packets)
unfolding serve serve_each serve_operation read write read_chunk write_chunk check_request
    expected_request written last_of ack initial_memory payload pattern_from
served = refl

serve-Answers_example :
    Answers
      (apply_each one_write initial_memory)
      (observed_each one_write initial_memory)
      ([], changed, packets)
serve-Answers_example =
    serve-Answers one_write requests 4000 ([], changed, packets) (omega arith) served
