-- ===== src/Requests/Exact.antt =====
-- What the comparison of the request checks accepts.
use lean_s.Prelude.{
  ℕ, ◌/◌, ◌%◌, ◌<◌, ◌≡◌, sym, ap, ◌∙◌, true, ◌↔◌, [], ◌∷◌, ◌++◌, arith, length, length-drop, take,
  drop, slice,
}
use lean_s.Error.{ok}
use lean_s.Bytes.{Bytes, IsBytes, equal, from_bytes, byte_at}
use lean_s.Bytes.Laws.{eq_of_equal, equal_refl, byte_at-lt}
use lean_s.Queue.Accepted.{split_six, reference_six}
use lean_s.Overlap.Check.{request_with}
use lean_s.Requests.{correlated}

agrees :
    (request expected : Bytes) (reference : ℕ)
    → correlated request expected ≡ ok reference
    → (equal (take 4 request) (take 4 expected) ≡ true)
      × (equal (drop 6 request) (drop 6 expected) ≡ true)
      × (from_bytes (slice 4 6 request) ≡ reference)
unfolding correlated
agrees request expected reference h = ground arith

-- What follows the reference of an accepted request.
pub correlated-tail :
    (request expected : Bytes) (reference : ℕ)
    → correlated request expected ≡ ok reference
    → drop 6 request ≡ drop 6 expected
correlated-tail request expected reference h =
    eq_of_equal (drop 6 request) (drop 6 expected) (agrees request expected reference h).1

pub correlated-reference :
    (request expected : Bytes) (reference : ℕ)
    → correlated request expected ≡ ok reference
    → from_bytes (slice 4 6 request) ≡ reference
correlated-reference request expected reference h = (agrees request expected reference h).2

accepted :
    (request tail : Bytes) (reference : ℕ)
    → IsBytes request
    → 0 < length tail
    → correlated request (request_with 0 tail) ≡ ok reference
    → (reference < 65536) × (request ≡ request_with reference tail)
accepted request tail reference octets more h =
    let (starts, ends, number) = agrees request (request_with 0 tail) reference h in
    let start = eq_of_equal (take 4 request) (0x32 ∷ 1 ∷ 0 ∷ 0 ∷ []) starts in
    let end = eq_of_equal (drop 6 request) tail ends in
    let long : 6 < length request = omega (arith, length-drop 6 request, ap length end) in
    let value = sym (reference_six request long) ∙ number in
    let high = byte_at-lt request 4 octets in
    let low = byte_at-lt request 5 octets in
    let fourth : byte_at request 4 ≡ reference / 256 = omega (arith, value, high, low) in
    let fifth : byte_at request 5 ≡ reference % 256 = omega (arith, value, high, low) in
    (
      omega (arith, value, high, low),
      split_six request long
          ∙ ap (λ k. k ++ (byte_at request 4 ∷ byte_at request 5 ∷ drop 6 request)) start
          ∙ ap (λ k. 0x32 ∷ 1 ∷ 0 ∷ 0 ∷ k ∷ byte_at request 5 ∷ drop 6 request) fourth
          ∙ ap (λ k. 0x32 ∷ 1 ∷ 0 ∷ 0 ∷ reference / 256 ∷ k ∷ drop 6 request) fifth
          ∙ ap (request_with reference) end,
    )

pub accepts :
    (tail : Bytes) (reference : ℕ)
    → correlated (request_with reference tail) (request_with 0 tail) ≡ ok reference
unfolding correlated
accepts tail reference = let same = equal_refl tail in rw same (ap ok (omega arith))

-- Against an expected job with reference 0 that has more than the reference's octets, a request of
-- octets is accepted with a reference exactly where that reference is below 65536 and the request
-- is the job with it.
pub correlated_iff :
    (request tail : Bytes) (reference : ℕ)
    → IsBytes request
    → 0 < length tail
    → (correlated request (request_with 0 tail) ≡ ok reference)
      ↔ ((reference < 65536) × (request ≡ request_with reference tail))
correlated_iff request tail reference octets more =
    (accepted request tail reference octets more, λ (below, e). rw e (accepts tail reference))
