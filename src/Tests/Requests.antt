-- ===== src/Tests/Requests.antt =====
-- The request checks at concrete requests.
use lean_s.Prelude.{ℕ, ◌<◌, ◌≡◌, ◌↔◌, refl, some, false, [], ◌∷◌, arith}
use lean_s.Error.{ok}
use lean_s.Bytes.{Bytes}
use lean_s.Conversation.Wire.{request}
use lean_s.Overlap.Check.{request_with}
use lean_s.Requests.{
  correlated, job, function_code, is_write, spec, second_spec, item_count, written_data, mixed_job,
  check_mixed, read_op, read_two_op, malformed_op,
}
use lean_s.Requests.Exact.{correlated_iff}
use lean_s.Requests.Positions.{check_mixed-position}
use lean_s.Agreement.Positions.{read_ranges, check_mixed-request}

abbrev rest : Bytes
rest = 0 ∷ 2 ∷ 0 ∷ 0 ∷ 4 ∷ 0 ∷ []

abbrev numbered : Bytes
numbered = 0x32 ∷ 1 ∷ 0 ∷ 0 ∷ 1 ∷ 2 ∷ rest

correlated_iff_example :
    (correlated numbered (request_with 0 rest) ≡ ok 258)
    ↔ ((258 < 65536) × (numbered ≡ request_with 258 rest))
correlated_iff_example =
    correlated_iff numbered rest 258
      (
        omega arith,
        (
          omega arith,
          (
            omega arith,
            (
              omega arith,
              (
                omega arith,
                (
                  omega arith,
                  (
                    omega arith,
                    (omega arith, (omega arith, (omega arith, (omega arith, (omega arith, tt))))),
                  ),
                ),
              ),
            ),
          ),
        ),
      )
      (omega arith)

-- a read at the position 3 of a plan, with the reference 7
abbrev third : Bytes
third =
    0x32 ∷ 1 ∷ 0 ∷ 0 ∷ 0 ∷ 7 ∷ 0 ∷ 14 ∷ 0 ∷ 0 ∷ 4 ∷ 1 ∷ 0x12 ∷ 0x0a ∷ 0x10 ∷ 2 ∷ 0 ∷ 1 ∷ 0 ∷ 1
    ∷ 0x84 ∷ 0 ∷ 0 ∷ 104 ∷ []

third_read : check_mixed third read_op 3 ≡ ok 7
unfolding check_mixed mixed_job spec second_spec job item_count written_data function_code is_write
    correlated
third_read = refl

third_malformed : check_mixed third malformed_op 3 ≡ ok 7
unfolding check_mixed mixed_job spec second_spec job item_count written_data function_code is_write
    correlated
third_malformed = refl

abbrev position : ℕ
position = 3

abbrev reference : ℕ
reference = 7

check_mixed-position_example :
    (position ≡ position) × (is_write read_op ≡ is_write malformed_op) × (reference ≡ reference)
check_mixed-position_example =
    check_mixed-position third read_op malformed_op position position reference reference third_read
      third_malformed

two_reads : is_write read_two_op ≡ false
unfolding is_write
two_reads = refl

check_mixed-request_example :
    (pdu : Bytes) × (request 9 (read_ranges read_two_op 4) false ≡ ok (some pdu))
    × (check_mixed pdu read_two_op 4 ≡ ok 9)
check_mixed-request_example =
    check_mixed-request read_two_op 4 9 two_reads (omega arith) (omega arith)
