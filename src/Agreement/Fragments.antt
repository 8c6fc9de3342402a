-- ===== src/Agreement/Fragments.antt =====
-- Replies of a USERDATA peer that the sequence oracle reads as the fragments of a conversation.
use lean_s.Prelude.{
  ℕ, ◌+◌, ◌≤◌, ◌≡◌, refl, Bool, true, false, not, List, [], ◌∷◌, ◌++◌, arith, if◌then◌else◌, length,
  length-append, append_assoc, append-nil,
}
use lean_s.Error.{Result, ok, ◌>>=◌, >>=-eq-ok}
use lean_s.Bytes.{Bytes}
use lean_s.Peer.Reply.{Header, reply}
use lean_s.Sequence.Userdata.{
  Case, fragment, fragments, decode_conversation, valid_parameters, valid_payload,
}
use lean_s.Agreement.Sections.{sections-frame}
use lean_s.Agreement.Verdicts.{reply-frame}

-- a fragment of a payload, with the two fields of its reply that are opaque
pub record Chunk : Type 0 where
  pub sequence : ℕ
  pub unit : ℕ
  pub payload : Bytes

-- The reply that carries a chunk; all but the last say that more is to come.
abbrev pub header_of : Case → Chunk → Bool → Header
header_of test chunk more = record {
  group = test.expected_group;
  subfunction = test.expected_subfunction;
  sequence = chunk.sequence;
  unit = chunk.unit;
  flag = if more then 1 else 0;
  transport = 9;
  code = 255;
}

abbrev pub continues : List Chunk → Bool
continues [] = false
continues (c ∷ cs) = true

abbrev pub replies : Case → List Chunk → Result (List Bytes)
replies test [] = ok []
replies test (c ∷ cs) = do
  pdu ← reply test.reference (header_of test c (continues cs)) c.payload
  rest ← replies test cs
  ok (pdu ∷ rest)

abbrev pub joined : List Chunk → Bytes
joined [] = []
joined (c ∷ cs) = c.payload ++ joined cs

fragment-reply :
    (test : Case) (count : ℕ) (done : Bytes) (c : Chunk) (more : Bool) (pdu : Bytes)
    → reply test.reference (header_of test c more) c.payload ≡ ok pdu
    → count + (if more then 1 else 0) ≤ test.maximum_fragments
    → length done + length c.payload ≤ test.maximum_bytes
    → fragment test count (record { accumulated = done; complete = false }) pdu
      ≡ ok (record { accumulated = done ++ c.payload; complete = not more })
unfolding fragment valid_parameters valid_payload
fragment-reply test count done c more pdu e hn hb =
    rw (reply-frame test.reference (header_of test c more) c.payload pdu e)
      (rw sections-frame (ground arith))

fragments-replies :
    (test : Case) (count : ℕ) (done : Bytes) (c : Chunk) (cs : List Chunk) (pdus : List Bytes)
    → replies test (c ∷ cs) ≡ ok pdus
    → count + length cs ≤ test.maximum_fragments
    → length done + length (joined (c ∷ cs)) ≤ test.maximum_bytes
    → fragments test count (record { accumulated = done; complete = false }) pdus
      ≡ ok (record { accumulated = done ++ joined (c ∷ cs); complete = true })
unfolding fragments
fragments-replies test count done c [] pdus e hn hb =
    let (pdu, hp, e') = >>=-eq-ok (reply test.reference (header_of test c false) c.payload) _ e in
    let only : pdu ∷ [] ≡ pdus = cc e' in
    let room = length-append c.payload [] in
    rw (← only) (
      rw
        (
          fragment-reply test count done c false pdu hp (omega arith) (omega (arith, room)),
          append-nil,
        )
        refl)
fragments-replies test count done c (d ∷ cs) pdus e hn hb =
    let (pdu, hp, e') = >>=-eq-ok (reply test.reference (header_of test c true) c.payload) _ e in
    let (rest, hr, e'') = >>=-eq-ok (replies test (d ∷ cs)) _ e' in
    let all : pdu ∷ rest ≡ pdus = cc e'' in
    let room = length-append c.payload (joined (d ∷ cs)) in
    let grown = length-append done c.payload in
    let later =
      fragments-replies test (count + 1) (done ++ c.payload) d cs rest hr (omega arith)
        (omega (arith, room, grown)) in
    rw (← all) (
      rw (fragment-reply test count done c true pdu hp (omega arith) (omega (arith, room)))
        (rw append_assoc at later))

-- The oracle reassembles the payload of every sequence of one or more chunks that a peer sends,
-- all but the last flagged as continuing, within the bounds on fragments and octets; sequence and
-- unit numbers play no part.
pub decode_conversation-replies :
    (test : Case) (c : Chunk) (cs : List Chunk) (pdus : List Bytes)
    → replies test (c ∷ cs) ≡ ok pdus
    → length (c ∷ cs) ≤ test.maximum_fragments
    → length (joined (c ∷ cs)) ≤ test.maximum_bytes
    → decode_conversation test pdus ≡ ok (joined (c ∷ cs))
unfolding decode_conversation
decode_conversation-replies test c cs pdus e hn hb =
    rw (fragments-replies test 1 [] c cs pdus e (omega arith) (omega arith)) refl
