-- ===== src/Agreement/Verdicts.antt =====
-- What the management oracle makes of the replies of a USERDATA peer.
use Prim.Native.Nat.{bit_or}
use lean_s.Prelude.{
  ℕ, ◌+◌, ◌*◌, ◌/◌, ◌%◌, ◌<◌, ◌≡◌, refl, sym, ap, ◌∙◌, Bool-cases, inl, inr, Bool, false, not, ◌&&◌,
  ◌||◌, ltb, [], ◌∷◌, ◌++◌, arith, ◌==◌, if◌then◌else◌, length,
}
use lean_s.Error.{ok}
use lean_s.Bytes.{Bytes, word}
use lean_s.Bytes.Laws.{word_parts}
use lean_s.Management.{Decoded, protocol, plc_rejected, decode, decode_data, null_ack}
use lean_s.Peer.Reply.{Header, reply}
use lean_s.Agreement.Frame.{frame}
use lean_s.Agreement.Reply.{response_group}

abbrev pub parameters_of : Header → Bytes
parameters_of h =
    0
    ∷ 1
    ∷ 0x12
    ∷ 8
    ∷ 0x12
    ∷ bit_or 0x80 h.group
    ∷ h.subfunction
    ∷ h.sequence
    ∷ h.unit
    ∷ h.flag
    ∷ 0
    ∷ 0
    ∷ []

abbrev pub content_of : Header → Bytes → Bytes
content_of h payload = h.code ∷ h.transport ∷ (word (length payload) ++ payload)

-- A reply that is built is the frame of its two sections.
pub reply-frame :
    (reference : ℕ) (h : Header) (payload pdu : Bytes)
    → reply reference h payload ≡ ok pdu
    → pdu ≡ frame 7 reference (parameters_of h) (content_of h payload)
unfolding reply
reply-frame reference h payload pdu e = ground arith

-- The requests that a null acknowledgement answers: the clock that is set, and the passwords.
abbrev pub acknowledged_bare : ℕ → ℕ → Bool
acknowledged_bare group subfunction =
    (group == 7 && subfunction == 2) || (group == 5 && (subfunction == 1 || subfunction == 2))

-- What a client must make of a reply with some fields and payload.
abbrev pub verdict : Header → Bytes → Decoded
verdict h payload =
    let all = Decoded.accept (record {
      payload = payload;
      sequence = h.sequence;
      data_unit_reference = h.unit;
      has_more_data = h.flag == 1;
      return_code = h.code;
      transport_size = h.transport;
    }) in
    if ltb 1 h.flag
    then Decoded.reject protocol
    else if h.code == 255
    then (if h.transport == 9 then all else Decoded.reject protocol)
    else if h.code == 10 && acknowledged_bare h.group h.subfunction
    then (if h.transport == 0 && h.flag == 0 && length payload == 0
        then all
        else Decoded.reject protocol)
    else Decoded.reject plc_rejected

data_verdict :
    (h : Header) (payload : Bytes)
    → ltb 1 h.flag ≡ false
    → decode_data (parameters_of h) (content_of h payload) h.group h.subfunction ≡ verdict h payload
unfolding decode_data null_ack
data_verdict h payload e =
    let size : length payload / 256 * 256 + length payload % 256 ≡ length payload = omega arith in
    rw (size, e) (ground arith)

reply_kept :
    (reference wanted group subfunction : ℕ) (h : Header) (payload : Bytes)
    → h.group < 16
    → decode (frame 7 reference (parameters_of h) (content_of h payload)) wanted group subfunction
      ≡ (if reference == wanted
            && h.group == group
            && h.subfunction == subfunction
            && not (ltb 1 h.flag)
          then decode_data (parameters_of h) (content_of h payload) group subfunction
          else Decoded.reject protocol)
unfolding decode
reply_kept reference wanted group subfunction h payload hg =
    let coded = response_group h.group hg in
    let high : (128 + h.group) / 16 ≡ 8 = omega arith in
    let low : (128 + h.group) % 16 ≡ h.group = omega arith in
    let number : reference / 256 * 256 + reference % 256 ≡ reference = omega arith in
    let size = word_parts (length (content_of h payload)) in
    rw (coded, high, low, number, size) (ground arith)

own_verdict :
    (group subfunction : ℕ) (h : Header) (payload : Bytes)
    → h.group ≡ group
    → h.subfunction ≡ subfunction
    → (if not (ltb 1 h.flag)
        then decode_data (parameters_of h) (content_of h payload) group subfunction
        else Decoded.reject protocol)
      ≡ verdict h payload
own_verdict group subfunction h payload e f = elim (Bool-cases (ltb 1 h.flag)) [
  | inl bad ↦ rw bad refl
  | inr good ↦
      let read = decode_data (parameters_of h) (content_of h payload) in
      ap (λ k. if not k then read group subfunction else Decoded.reject protocol) good
      ∙ ap (λ k. read k subfunction) (sym e)
      ∙ ap (read h.group) (sym f)
      ∙ data_verdict h payload good
]

kept_verdict :
    (reference wanted group subfunction : ℕ) (h : Header) (payload : Bytes)
    → (if reference == wanted
          && h.group == group
          && h.subfunction == subfunction
          && not (ltb 1 h.flag)
        then decode_data (parameters_of h) (content_of h payload) group subfunction
        else Decoded.reject protocol)
      ≡ (if reference == wanted && h.group == group && h.subfunction == subfunction
          then verdict h payload
          else Decoded.reject protocol)
kept_verdict reference wanted group subfunction h payload =
    elim (Bool-cases (reference == wanted)) [
      | inr off ↦ rw off refl
      | inl r ↦ elim (Bool-cases (h.group == group)) [
        | inr off ↦ rw (r, off) refl
        | inl g ↦ elim (Bool-cases (h.subfunction == subfunction)) [
          | inr off ↦ rw (r, g, off) refl
          | inl s ↦
              rw (r, g, s) (own_verdict group subfunction h payload (ground arith) (ground arith))
        ]
      ]
    ]

-- The management oracle's verdict on a reply that a peer builds for a group below 16, whatever its
-- other fields: one that has another reference, group or subfunction than the oracle waits for is
-- refused, and every other is read, with every field as it was built, or refused as `verdict` says.
pub decode-reply :
    (reference wanted group subfunction : ℕ) (h : Header) (payload pdu : Bytes)
    → reply reference h payload ≡ ok pdu
    → h.group < 16
    → decode pdu wanted group subfunction ≡ (
        if reference == wanted && h.group == group && h.subfunction == subfunction
        then verdict h payload
        else Decoded.reject protocol)
decode-reply reference wanted group subfunction h payload pdu e hg =
    ap (λ k. decode k wanted group subfunction) (reply-frame reference h payload pdu e)
    ∙ reply_kept reference wanted group subfunction h payload hg
    ∙ kept_verdict reference wanted group subfunction h payload
