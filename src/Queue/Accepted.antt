-- ===== src/Queue/Accepted.antt =====
-- What `_check` of integration/queued_batches.py accepts.
use lean_s.Prelude.{
  ℕ, ◌+◌, ◌*◌, ◌<◌, ◌≡◌, refl, sym, ap, ◌∙◌, Bool, true, List, [], ◌∷◌, ◌++◌, arith, ltb, length,
  length-append, length-drop, take, drop, slice, not, ◌||◌,
}
use lean_s.Error.{ok, ◌>>=◌, >>=-eq-ok, raise_if, runtime_error}
use lean_s.Bytes.{Bytes, IsBytes, equal, byte_at, from_bytes, pack_word}
use lean_s.Bytes.Laws.{eq_of_equal, byte_at-lt}
use lean_s.Queue.Plan.{Piece}
use lean_s.Queue.Wire.{opening, wire_items, wire, check}

-- A list of more than six octets, split around its fifth and sixth.
pub split_six : (r : Bytes) → 6 < length r → r ≡ take 4 r ++ (byte_at r 4 ∷ byte_at r 5 ∷ drop 6 r)
split_six (a ∷ b ∷ c ∷ d ∷ e ∷ f ∷ r) h = refl
split_six [] h = absurd (omega arith)
split_six (a ∷ []) h = absurd (omega arith)
split_six (a ∷ b ∷ []) h = absurd (omega arith)
split_six (a ∷ b ∷ c ∷ []) h = absurd (omega arith)
split_six (a ∷ b ∷ c ∷ d ∷ []) h = absurd (omega arith)
split_six (a ∷ b ∷ c ∷ d ∷ e ∷ []) h = absurd (omega arith)

pub reference_six :
    (r : Bytes) → 6 < length r → from_bytes (slice 4 6 r) ≡ byte_at r 4 * 256 + byte_at r 5
reference_six (a ∷ b ∷ c ∷ d ∷ e ∷ f ∷ r) h = omega arith
reference_six [] h = absurd (omega arith)
reference_six (a ∷ []) h = absurd (omega arith)
reference_six (a ∷ b ∷ []) h = absurd (omega arith)
reference_six (a ∷ b ∷ c ∷ []) h = absurd (omega arith)
reference_six (a ∷ b ∷ c ∷ d ∷ []) h = absurd (omega arith)
reference_six (a ∷ b ∷ c ∷ d ∷ e ∷ []) h = absurd (omega arith)

pack_word-length : (n : ℕ) (w : Bytes) → pack_word n ≡ ok w → length w ≡ 2
pack_word-length n w h = ground arith

wire-long : (batch : List Piece) (write : Bool) (w : Bytes) → wire batch write ≡ ok w → 6 < length w
unfolding wire
wire-long batch write w h =
    let (start, e, h') = >>=-eq-ok (opening write batch) _ h in
    let (items, f, h'') = >>=-eq-ok (wire_items write batch) _ h' in
    let (m, g, h''') = >>=-eq-ok (pack_word (length (start ++ items.0))) _ h'' in
    let (n, k, last) = >>=-eq-ok (pack_word (length items.1)) _ h''' in
    ground (
      arith,
      last,
      pack_word-length (length (start ++ items.0)) m g,
      length-append m (n ++ ((start ++ items.0) ++ items.1)),
    )

pub accepted-agrees :
    (request expected : Bytes) (pdu reference : ℕ)
    → (raise_if
          (ltb pdu (length request)
            || not (equal (take 4 request) (take 4 expected))
            || not (equal (drop 6 request) (drop 6 expected)))
          runtime_error
        >>= λ _. ok (from_bytes (slice 4 6 request)))
      ≡ ok reference
    → (equal (take 4 request) (take 4 expected) ≡ true)
      × (equal (drop 6 request) (drop 6 expected) ≡ true)
      × (from_bytes (slice 4 6 request) ≡ reference)
accepted-agrees request expected pdu reference h = ground arith

accepted-wire :
    (request : Bytes) (batch : List Piece) (pdu reference : ℕ) (write : Bool)
    → check request batch pdu write ≡ ok reference
    → (expected : Bytes) × (wire batch write ≡ ok expected)
unfolding check
accepted-wire request batch pdu reference write h =
    let (expected, e, rest) = >>=-eq-ok (wire batch write) _ h in (expected, e)

check-eq :
    (request expected : Bytes) (batch : List Piece) (pdu : ℕ) (write : Bool)
    → wire batch write ≡ ok expected
    → check request batch pdu write ≡ (
        raise_if
          (ltb pdu (length request)
            || not (equal (take 4 request) (take 4 expected))
            || not (equal (drop 6 request) (drop 6 expected)))
          runtime_error
        >>= λ _. ok (from_bytes (slice 4 6 request)))
unfolding check
check-eq request expected batch pdu write e = rw e refl

accepted-parts :
    (request expected : Bytes) (batch : List Piece) (pdu reference : ℕ) (write : Bool)
    → wire batch write ≡ ok expected
    → check request batch pdu write ≡ ok reference
    → (request ≡ take 4 expected ++ (byte_at request 4 ∷ byte_at request 5 ∷ drop 6 expected))
      × (byte_at request 4 * 256 + byte_at request 5 ≡ reference)
accepted-parts request expected batch pdu reference write e h =
    let (starts, ends, number) =
      accepted-agrees request expected pdu reference
        (sym (check-eq request expected batch pdu write e) ∙ h) in
    let start = eq_of_equal (take 4 request) (take 4 expected) starts in
    let end = eq_of_equal (drop 6 request) (drop 6 expected) ends in
    let long : 6 < length request = omega (
      arith,
      wire-long batch write expected e,
      length-drop 6 request,
      length-drop 6 expected,
      ap length end,
    ) in
    (
      split_six request long
          ∙ ap (λ k. k ++ (byte_at request 4 ∷ byte_at request 5 ∷ drop 6 request)) start
          ∙ ap (λ k. take 4 expected ++ (byte_at request 4 ∷ byte_at request 5 ∷ k)) end,
      sym (reference_six request long) ∙ number,
    )

-- For each batch, PDU length, direction and reference, `_check` accepts one request at most: two
-- sequences of octets that it accepts with one reference are equal.
pub check-injective :
    (request other : Bytes) (batch : List Piece) (pdu reference : ℕ) (write : Bool)
    → IsBytes request
    → IsBytes other
    → check request batch pdu write ≡ ok reference
    → check other batch pdu write ≡ ok reference
    → request ≡ other
check-injective request other batch pdu reference write hr ho h k =
    let (expected, e) = accepted-wire request batch pdu reference write h in
    let (split, number) = accepted-parts request expected batch pdu reference write e h in
    let (split', number') = accepted-parts other expected batch pdu reference write e k in
    let high : byte_at request 4 ≡ byte_at other 4 =
      omega (arith, number, number', byte_at-lt request 5 hr, byte_at-lt other 5 ho) in
    let low : byte_at request 5 ≡ byte_at other 5 =
      omega (arith, number, number', byte_at-lt request 5 hr, byte_at-lt other 5 ho) in
    split
    ∙ ap (λ x. take 4 expected ++ (x ∷ byte_at request 5 ∷ drop 6 expected)) high
    ∙ ap (λ x. take 4 expected ++ (byte_at other 4 ∷ x ∷ drop 6 expected)) low
    ∙ sym split'
