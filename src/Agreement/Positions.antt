-- ===== src/Agreement/Positions.antt =====
-- Requests of the conversation encoder against the check of the mixed peer.
use lean_s.Prelude.{
  ℕ, ◌+◌, ◌*◌, ◌/◌, ◌%◌, ◌<◌, ◌≡◌, refl, false, some, List, [], ◌∷◌, ◌++◌, arith, ltb, lt→ltb,
  le→ltb,
}
use lean_s.Error.{ok}
use lean_s.Bytes.{Bytes}
use lean_s.Conversation.Types.{MemoryRange}
use lean_s.Conversation.Wire.{request, address, addresses, packet, valid_range, valid_ranges}
use lean_s.Overlap.Check.{request_with}
use lean_s.Requests.{
  Op, read_op, write_op, read_two_op, retried_op, write_two_op, rejected_op, malformed_op,
  dropped_op, is_write, spec, job, second_spec, item_count, written_data, function_code, mixed_job,
  check_mixed,
}
use lean_s.Requests.Exact.{accepts}

abbrev octet_at : ℕ → MemoryRange
octet_at start = record { db_number = 1; start = start; count = 1 }

-- what the read operations of a mixed plan read
abbrev pub read_ranges : Op → ℕ → List MemoryRange
read_ranges read_two_op index = octet_at (10 + index) ∷ octet_at (10 + index + 1) ∷ []
read_ranges op index = octet_at (10 + index) ∷ []

abbrev item_bytes : ℕ → Bytes
item_bytes start =
    0x12
    ∷ 0x0a
    ∷ 0x10
    ∷ 2
    ∷ 0
    ∷ 1
    ∷ 0
    ∷ 1
    ∷ 0x84
    ∷ start * 8 / 65536
    ∷ start * 8 / 256 % 256
    ∷ start * 8 % 256
    ∷ []

address-octet_at : (start : ℕ) → start < 2097152 → address (octet_at start) ≡ ok (item_bytes start)
unfolding address
address-octet_at start h = ground arith

spec-item_bytes : (start : ℕ) → start < 2097152 → spec start ≡ ok (item_bytes start)
unfolding spec
spec-item_bytes start h = ground arith

request-one :
    (reference index : ℕ)
    → reference < 65536
    → index < 2097000
    → request reference (octet_at (10 + index) ∷ []) false
      ≡ ok (some (request_with reference (0 ∷ 14 ∷ 0 ∷ 0 ∷ 4 ∷ 1 ∷ item_bytes (10 + index))))
unfolding request addresses packet valid_ranges valid_range
request-one reference index hr hi =
    let a = address-octet_at (10 + index) (omega arith) in
    let fits = lt→ltb reference 65536 hr in
    let inside : ltb 2097152 (10 + index + 1) ≡ false =
      le→ltb 2097152 (10 + index + 1) (omega arith) in
    rw (inside, a, fits) refl

request-two :
    (reference index : ℕ)
    → reference < 65536
    → index < 2097000
    → request reference (octet_at (10 + index) ∷ octet_at (10 + index + 1) ∷ []) false
      ≡ ok (
          some (
            request_with reference
              (0 ∷ 26 ∷ 0 ∷ 0 ∷ 4 ∷ 2 ∷ (item_bytes (10 + index) ++ item_bytes (10 + index + 1)))))
unfolding request addresses packet valid_ranges valid_range
request-two reference index hr hi =
    let a = address-octet_at (10 + index) (omega arith) in
    let b = address-octet_at (10 + index + 1) (omega arith) in
    let fits = lt→ltb reference 65536 hr in
    let inside : ltb 2097152 (10 + index + 1) ≡ false =
      le→ltb 2097152 (10 + index + 1) (omega arith) in
    let inside' : ltb 2097152 (10 + index + 1 + 1) ≡ false =
      le→ltb 2097152 (10 + index + 1 + 1) (omega arith) in
    rw (inside, inside', a, b, fits) refl

-- The request of a read operation, as the encoder builds it and as the peer expects it.
read_job :
    (op : Op) (index : ℕ)
    → is_write op ≡ false
    → index < 2097000
    → (pdu : Bytes) × ((reference : ℕ)
        → reference < 65536
        → (request reference (read_ranges op index) false ≡ ok (some (request_with reference pdu))))
      × (mixed_job op index ≡ ok (request_with 0 pdu))
unfolding is_write mixed_job second_spec item_count written_data function_code job
read_job read_op index e h = (
  0 ∷ 14 ∷ 0 ∷ 0 ∷ 4 ∷ 1 ∷ item_bytes (10 + index),
  λ reference hr. request-one reference index hr h,
  rw (spec-item_bytes (10 + index) (omega arith)) refl,
)
read_job retried_op index e h = (
  0 ∷ 14 ∷ 0 ∷ 0 ∷ 4 ∷ 1 ∷ item_bytes (10 + index),
  λ reference hr. request-one reference index hr h,
  rw (spec-item_bytes (10 + index) (omega arith)) refl,
)
read_job malformed_op index e h = (
  0 ∷ 14 ∷ 0 ∷ 0 ∷ 4 ∷ 1 ∷ item_bytes (10 + index),
  λ reference hr. request-one reference index hr h,
  rw (spec-item_bytes (10 + index) (omega arith)) refl,
)
read_job read_two_op index e h = (
  0 ∷ 26 ∷ 0 ∷ 0 ∷ 4 ∷ 2 ∷ (item_bytes (10 + index) ++ item_bytes (10 + index + 1)),
  λ reference hr. request-two reference index hr h,
  rw (spec-item_bytes (10 + index) (omega arith), spec-item_bytes (10 + index + 1) (omega arith))
      refl,
)
read_job write_op index e h = cc
read_job write_two_op index e h = cc
read_job rejected_op index e h = cc
read_job dropped_op index e h = cc

-- For a read operation of a mixed plan, at a position below 2097000 and with a reference below
-- 65536, the conversation encoder builds a request of the octets that are read there, and the
-- mixed peer accepts it with that reference.
pub check_mixed-request :
    (op : Op) (index reference : ℕ)
    → is_write op ≡ false
    → index < 2097000
    → reference < 65536
    → (pdu : Bytes) × (request reference (read_ranges op index) false ≡ ok (some pdu))
      × (check_mixed pdu op index ≡ ok reference)
unfolding check_mixed
check_mixed-request op index reference e h hr =
    let (tail, built, wanted) = read_job op index e h in
    (request_with reference tail, built reference hr, rw wanted (accepts tail reference))
