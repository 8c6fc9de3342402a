-- ===== src/Sequence/Userdata/Bounds.antt =====
-- The bounds of an accepted USERDATA conversation.
use lean_s.Prelude.{
  ℕ, ◌+◌, ltb, ◌||◌, ◌≤◌, ◌≡◌, false, List, [], ◌∷◌, arith, length, drop, length-append,
  length-drop,
}
use lean_s.Error.{ok, value_error, raise_if, >>=-eq-ok}
use lean_s.Bytes.{Bytes}
use lean_s.Sequence.Sections.{sections}
use lean_s.Sequence.Userdata.{
  Case, Progress, fragment, fragments, decode_conversation, valid_payload,
}

fragment-bounds :
    (test : Case) (count : ℕ) (s s' : Progress) (raw : Bytes)
    → fragment test count s raw ≡ ok s'
    → (count ≤ test.maximum_fragments) × (length s'.accumulated ≤ test.maximum_bytes)
unfolding fragment valid_payload
fragment-bounds test count s s' raw h =
    let first = raise_if (s.complete || ltb test.maximum_fragments count) value_error in
    let (_, h₀, h₁) = >>=-eq-ok first _ h in
    let (split, hs, h₂) = >>=-eq-ok (sections raw 7 test.reference) _ h₁ in
    let grown = length-append s.accumulated (drop 4 split.1) in
    let cut = length-drop 4 split.1 in (ground arith, ground (arith, grown, cut))

fragments-bounds :
    (test : Case) (count : ℕ) (s s' : Progress) (pdus : List Bytes)
    → fragments test count s pdus ≡ ok s'
    → count ≤ test.maximum_fragments + 1
    → length s.accumulated ≤ test.maximum_bytes
    → (count + length pdus ≤ test.maximum_fragments + 1)
      × (length s'.accumulated ≤ test.maximum_bytes)
unfolding fragments
fragments-bounds test count s s' [] h hn hb = ground arith
fragments-bounds test count s s' (raw ∷ rest) h hn hb =
    let (t, ht, h') = >>=-eq-ok (fragment test count s raw) _ h in
    let (hc, hl) = fragment-bounds test count s t raw ht in
    let (n, b) = fragments-bounds test (count + 1) t s' rest h' (omega arith) hl in (omega arith, b)

-- An accepted conversation has no more fragments, and no more octets of payload, than the case
-- allows.
pub decode_conversation-bounds :
    (test : Case) (pdus : List Bytes) (payload : Bytes)
    → decode_conversation test pdus ≡ ok payload
    → (length pdus ≤ test.maximum_fragments) × (length payload ≤ test.maximum_bytes)
unfolding decode_conversation
decode_conversation-bounds test pdus payload h =
    let start : Progress = record { accumulated = []; complete = false } in
    let (s, hs, h') = >>=-eq-ok (fragments test 1 start pdus) _ h in
    let (n, b) = fragments-bounds test 1 start s pdus hs (omega arith) (omega arith) in
    (omega arith, ground (arith, b))
