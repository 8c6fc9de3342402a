-- ===== src/Overlap/Check.antt =====
-- What `_check_request` of integration/overlap_operations.py accepts.
use lean_s.Prelude.{
  ℕ, ◌+◌, ◌-◌, ◌*◌, ◌/◌, ◌%◌, ◌≤◌, ◌<◌, ◌≡◌, refl, sym, ap, ◌∙◌, Bool, true, false, [], ◌∷◌, arith,
  ltb, ◌==◌, length, length-drop, drop-drop, drop, le→ltb,
}
use lean_s.Error.{ok, >>=-eq-ok}
use lean_s.Bytes.{Bytes}
use lean_s.Bytes.Laws.{eq_of_equal, equal_refl}
use lean_s.Queue.Accepted.{accepted-agrees}
use lean_s.Overlap.Peer.{written, expected_request, check_request, last_of}

-- what follows the reference of a request to read
abbrev pub read_tail : ℕ → ℕ → Bytes
read_tail start count =
    0
    ∷ 14
    ∷ 0
    ∷ 0
    ∷ 4
    ∷ 1
    ∷ 0x12
    ∷ 0x0a
    ∷ 0x10
    ∷ 2
    ∷ count / 256
    ∷ count % 256
    ∷ 0
    ∷ 1
    ∷ 0x84
    ∷ start * 8 / 65536
    ∷ start * 8 / 256 % 256
    ∷ start * 8 % 256
    ∷ []

-- what follows the reference of a request to write
abbrev pub write_tail : ℕ → ℕ → Bytes → Bytes
write_tail start count content =
    0
    ∷ 14
    ∷ (4 + length content) / 256
    ∷ (4 + length content) % 256
    ∷ 5
    ∷ 1
    ∷ 0x12
    ∷ 0x0a
    ∷ 0x10
    ∷ 2
    ∷ count / 256
    ∷ count % 256
    ∷ 0
    ∷ 1
    ∷ 0x84
    ∷ start * 8 / 65536
    ∷ start * 8 / 256 % 256
    ∷ start * 8 % 256
    ∷ 0
    ∷ 4
    ∷ count * 8 / 256
    ∷ count * 8 % 256
    ∷ content

-- a request with a reference
abbrev pub request_with : ℕ → Bytes → Bytes
request_with reference tail = 0x32 ∷ 1 ∷ 0 ∷ 0 ∷ reference / 256 ∷ reference % 256 ∷ tail

expected-write :
    (start count : ℕ) (content e : Bytes)
    → expected_request true start count content ≡ ok e
    → e ≡ request_with 0 (write_tail start count content)
unfolding expected_request written
expected-write start count content e h = ground arith

write-expected :
    (start count : ℕ) (content : Bytes)
    → start < 2097152
    → count < 8192
    → length content ≡ count
    → expected_request true start count content
      ≡ ok (request_with 0 (write_tail start count content))
unfolding expected_request written
write-expected start count content hs hc hl = ground arith

read-expected :
    (start count : ℕ)
    → start < 2097152
    → count < 65536
    → expected_request false start count [] ≡ ok (request_with 0 (read_tail start count))
unfolding expected_request written
read-expected start count hs hc = ground arith

accepts :
    (write : Bool) (start count pdu reference : ℕ) (content tail : Bytes)
    → expected_request write start count content ≡ ok (request_with 0 tail)
    → 6 + length tail ≤ pdu
    → check_request (request_with reference tail) write start count pdu content ≡ ok reference
unfolding check_request
accepts write start count pdu reference content tail e h =
    let short : ltb pdu (length (request_with reference tail)) ≡ false =
      le→ltb pdu (length (request_with reference tail)) (omega (arith, h)) in
    let same = equal_refl tail in rw (e, short, same) (ap ok (omega arith))

pub check_request-read :
    (start count pdu reference : ℕ)
    → start < 2097152
    → count < 65536
    → 24 ≤ pdu
    → check_request (request_with reference (read_tail start count)) false start count pdu []
      ≡ ok reference
check_request-read start count pdu reference hs hc hp =
    accepts false start count pdu reference [] (read_tail start count)
      (read-expected start count hs hc) (omega arith)

pub check_request-write :
    (start count pdu reference : ℕ) (content : Bytes)
    → start < 2097152
    → count < 8164
    → length content ≡ count
    → 28 + count ≤ pdu
    → check_request
        (request_with reference (write_tail start count content))
        true
        start
        count
        pdu
        content
      ≡ ok reference
check_request-write start count pdu reference content hs hc hl hp =
    accepts true start count pdu reference content (write_tail start count content)
      (write-expected start count content hs (omega arith) hl) (omega arith)

-- The last octets of a write request that is accepted are its payload.
pub check_request-last :
    (request : Bytes) (start count pdu reference : ℕ) (content : Bytes)
    → check_request request true start count pdu content ≡ ok reference
    → 0 < length content
    → last_of (length content) request ≡ content
unfolding check_request last_of
check_request-last request start count pdu reference content h more =
    let (expected, e, rest) = >>=-eq-ok (expected_request true start count content) _ h in
    let (starts, ends, number) = accepted-agrees request expected pdu reference rest in
    let framed = expected-write start count content expected e in
    let end : drop 6 request ≡ write_tail start count content =
      eq_of_equal (drop 6 request) (drop 6 expected) ends ∙ ap (drop 6) framed in
    let long : length request - 6 ≡ 22 + length content =
      sym (length-drop 6 request) ∙ ap length end ∙ omega arith in
    let some_left : (length content == 0) ≡ false = ground arith in
    let cut : length request - length content ≡ 6 + 22 = omega (arith, long, more) in
    rw (some_left, cut, ← drop-drop, end) refl
