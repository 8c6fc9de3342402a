-- ===== src/Requests/Positions.antt =====
-- The positions at which the mixed peer accepts a request.
use lean_s.Prelude.{ℕ, ◌+◌, ◌*◌, ◌≡◌, refl, sym, ap, ◌∙◌, Bool, true, false, arith, drop}
use lean_s.Error.{ok, >>=-eq-ok}
use lean_s.Bytes.{Bytes, byte_at}
use lean_s.Requests.{
  job, function_code, Op, read_op, write_op, read_two_op, retried_op, write_two_op, rejected_op,
  malformed_op, dropped_op, is_write, spec, second_spec, item_count, written_data, mixed_job,
  check_mixed,
}
use lean_s.Requests.Exact.{correlated-tail, correlated-reference}

-- the bit address of the first item in what follows the reference
abbrev address_in : Bytes → ℕ
address_in tail = byte_at tail 15 * 65536 + byte_at tail 16 * 256 + byte_at tail 17

mixed_job-address :
    (op : Op) (index : ℕ) (expected : Bytes)
    → mixed_job op index ≡ ok expected
    → (address_in (drop 6 expected) ≡ (10 + index) * 8)
      × (byte_at (drop 6 expected) 4 ≡ function_code (is_write op))
unfolding mixed_job spec second_spec job item_count written_data function_code is_write
mixed_job-address read_op index expected h = ground arith
mixed_job-address write_op index expected h = ground arith
mixed_job-address read_two_op index expected h = ground arith
mixed_job-address retried_op index expected h = ground arith
mixed_job-address write_two_op index expected h = ground arith
mixed_job-address rejected_op index expected h = ground arith
mixed_job-address malformed_op index expected h = ground arith
mixed_job-address dropped_op index expected h = ground arith

code-injective : (a b : Bool) → function_code a ≡ function_code b → a ≡ b
unfolding function_code
code-injective false false e = refl
code-injective true true e = refl
code-injective false true e = absurd (omega (arith, e))
code-injective true false e = absurd (omega (arith, e))

-- A request that the mixed peer accepts for two operations at two positions has one position and
-- one reference, and the operations are both reads or both writes.
pub check_mixed-position :
    (request : Bytes) (op other : Op) (index position reference value : ℕ)
    → check_mixed request op index ≡ ok reference
    → check_mixed request other position ≡ ok value
    → (index ≡ position) × (is_write op ≡ is_write other) × (reference ≡ value)
unfolding check_mixed
check_mixed-position request op other index position reference value h k =
    let (expected, e, h') = >>=-eq-ok (mixed_job op index) _ h in
    let (wanted, f, k') = >>=-eq-ok (mixed_job other position) _ k in
    let (here, code) = mixed_job-address op index expected e in
    let (there, code') = mixed_job-address other position wanted f in
    let same =
      sym (correlated-tail request expected reference h')
      ∙ correlated-tail request wanted value k' in
    let addresses : (10 + index) * 8 ≡ (10 + position) * 8 =
      sym here ∙ ap address_in same ∙ there in
    let codes = sym code ∙ ap (λ k. byte_at k 4) same ∙ code' in
    (
      omega (arith, addresses),
      code-injective (is_write op) (is_write other) codes,
      sym (correlated-reference request expected reference h')
          ∙ correlated-reference request wanted value k',
    )
