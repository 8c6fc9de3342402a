-- ===== src/Agreement/Response.antt =====
-- What `decode_multi` of the sequence oracle accepts, `response` of the session oracle accepts.
use mathlib.Core.Path.{ap₂}
use lean_s.Prelude.{
  ℕ, zero, suc, ◌+◌, ◌<◌, ◌≤◌, ◌≡◌, refl, Bool-cases, inl, inr, ap, ◌∙◌, not, Bool, true, false,
  some, List, [], ◌∷◌, arith, length, length-map, slice, take, drop, map, ◌==◌, if◌then◌else◌,
  take_all,
}
use lean_s.Error.{ok, value_error, ◌>>=◌, ◌>>◌, raise_if, >>=-eq-ok}
use lean_s.Bytes.{Bytes, equal, byte_at, word_at}
use lean_s.Conversation.Types.{
  MemoryRange, Location, Outcome, protocol, success, failure, code_outcome,
}
use lean_s.Sequence.Sections.{sections}
use lean_s.Sequence.Multi.{
  ItemResult, read_item, read_size, item_result, write_item, decode_items, decode_multi,
}
use lean_s.Session.Config.{Config}
use lean_s.Session.Response.{
  refused, answered, item_size, check_item, check_items, read_reply, response,
}

-- what a PDU must hold for its sections to be read as an acknowledgement
record Acknowledgement (pdu : Bytes) (reference : ℕ) (parameters content : Bytes) : Type 0 where
  long : 12 ≤ length pdu
  protocol_id : byte_at pdu 0 ≡ 0x32
  kind : byte_at pdu 1 ≡ 3
  same_reference : word_at pdu 4 ≡ reference
  whole : length pdu ≡ 12 + word_at pdu 6 + word_at pdu 8
  no_class : byte_at pdu 10 ≡ 0
  no_code : byte_at pdu 11 ≡ 0
  parameters_are : slice 12 (12 + word_at pdu 6) pdu ≡ parameters
  content_is : drop (12 + word_at pdu 6) pdu ≡ content

acknowledged :
    (pdu : Bytes) (reference : ℕ) (p c : Bytes)
    → sections pdu 3 reference ≡ ok (p, c)
    → Acknowledgement pdu reference p c
unfolding sections
acknowledged (b₀ ∷ b₁ ∷ b₂ ∷ b₃ ∷ b₄ ∷ b₅ ∷ b₆ ∷ b₇ ∷ b₈ ∷ b₉ ∷ b₁₀ ∷ b₁₁ ∷ rest) reference p c h =
    ground arith
acknowledged _ reference p c h = cc

abbrev pub outcome : ItemResult → Outcome
outcome (ItemResult.success content) = success
outcome (ItemResult.failure code) = failure code

read_item-check_item :
    (payload : Bytes) (offset : ℕ) (l : Location) (more : Bool) (r : ItemResult × ℕ)
    → read_item payload offset l.range more ≡ ok r
    → check_item payload offset l more ≡ some r.1
unfolding read_item check_item read_size item_size
read_item-check_item payload offset l more r h = ground arith

read_items-check_items :
    (payload : Bytes) (offset : ℕ) (ls : List Location) (items : List ItemResult) (last : ℕ)
    → decode_items false payload offset (map (λ l. l.range) ls) ≡ ok (items, last)
    → check_items payload offset ls ≡ some last
unfolding decode_items check_items
read_items-check_items payload offset [] items last h = ground arith
read_items-check_items payload offset (l ∷ ls) items last h =
    let more = not (length (map (λ (k : Location). k.range) ls) == 0) in
    let (first, hf, h') = >>=-eq-ok (read_item payload offset l.range more) _ h in
    let (rest, hr, e) =
      >>=-eq-ok (decode_items false payload first.1 (map (λ (k : Location). k.range) ls)) _ h' in
    let same : more ≡ not (length ls == 0) = ap (λ n. not (n == 0)) (length-map ls _) in
    let one = read_item-check_item payload offset l (not (length ls == 0)) first (rw same at hf) in
    rw (one, check_items) (read_items-check_items payload first.1 ls rest.0 last (ground arith))

drop_at : (xs : Bytes) (i : ℕ) → i < length xs → drop i xs ≡ byte_at xs i ∷ drop (i + 1) xs
drop_at [] i h = absurd (omega arith)
drop_at (x ∷ xs) zero h = refl
drop_at (x ∷ xs) (suc i) h =
    drop_at xs i (omega arith)
    ∙ ap (λ k. byte_at xs i ∷ drop k (x ∷ xs)) (let e : suc (i + 1) ≡ suc i + 1 = omega arith in e)

write_item-ok :
    (payload : Bytes) (offset : ℕ) (r : ItemResult × ℕ)
    → write_item payload offset ≡ ok r
    → (offset < length payload)
      × (r.1 ≡ offset + 1)
      × (outcome r.0 ≡ code_outcome (byte_at payload offset))
unfolding write_item item_result code_outcome
write_item-ok payload offset r h = (ground arith, ground arith, ground arith)

-- The statuses of a write are the octets behind the offset.
write_items-codes :
    (payload : Bytes) (offset : ℕ) (ranges : List MemoryRange) (items : List ItemResult) (last : ℕ)
    → decode_items true payload offset ranges ≡ ok (items, last)
    → (last ≡ offset + length ranges)
      × (map outcome items ≡ map code_outcome (take (length ranges) (drop offset payload)))
unfolding decode_items
write_items-codes payload offset [] items last h = (ground arith, ground arith)
write_items-codes payload offset (r ∷ ranges) items last h =
    let (first, hf, h') = >>=-eq-ok (write_item payload offset) _ h in
    let (rest, hr, e) = >>=-eq-ok (decode_items true payload first.1 ranges) _ h' in
    let (inside, next, code) = write_item-ok payload offset first hf in
    let (end, codes) = write_items-codes payload first.1 ranges rest.0 last (ground arith) in
    let joined : items ≡ first.0 ∷ rest.0 = ground arith in
    (omega arith, rw joined (rw (drop_at payload offset inside) (ap₂ ◌∷◌ code (rw next at codes))))

-- `response` on a PDU whose header is that of an acknowledgement
response-acknowledged :
    (config : Config) (pdu p c : Bytes)
    → Acknowledgement pdu config.reference p c
    → equal p ((if config.write then 5 else 4) ∷ length config.locations ∷ []) ≡ true
    → response config pdu ≡ (
        if config.write
        then (if not (length c == length config.locations)
            then refused protocol
            else answered (map code_outcome c))
        else read_reply c (check_items c 0 config.locations))
unfolding response
response-acknowledged config pdu p c a e =
    rw (a.parameters_are, a.content_is)
      (ground
        (arith, a.long, a.protocol_id, a.kind, a.same_reference, a.whole, a.no_class, a.no_code))

decoded_part :
    (write : Bool) (p c : Bytes) (ranges : List MemoryRange) (items : List ItemResult) (f : ℕ)
    → (raise_if (not (equal p (f ∷ length ranges ∷ []))) value_error
        >> (decode_items write c 0 ranges >>= λ decoded.
            (raise_if (not (decoded.1 == length c)) value_error >> ok decoded.0)))
      ≡ ok items
    → (equal p (f ∷ length ranges ∷ []) ≡ true)
      × (decode_items write c 0 ranges ≡ ok (items, length c))
decoded_part write p c ranges items f h = elim (Bool-cases (equal p (f ∷ length ranges ∷ []))) [
  | inl good ↦
      let (d, hd, h') = >>=-eq-ok (decode_items write c 0 ranges) _ (rw good at h) in
      (good, ground arith)
  | inr bad ↦ cc (rw bad at h)
]

reply-decoded :
    (write : Bool) (c : Bytes) (ls : List Location) (items : List ItemResult)
    → decode_items write c 0 (map (λ l. l.range) ls) ≡ ok (items, length c)
    → (if write
        then (if not (length c == length ls)
            then refused protocol
            else answered (map code_outcome c))
        else read_reply c (check_items c 0 ls))
      ≡ answered (if write then map outcome items else [])
unfolding read_reply
reply-decoded true c ls items h =
    let ranges = map (λ (l : Location). l.range) ls in
    let (size, codes) = write_items-codes c 0 ranges items (length c) h in
    let width : length ranges ≡ length ls = length-map ls _ in
    let all : map outcome items ≡ map code_outcome c =
      codes ∙ ap (map code_outcome) (take_all (length ranges) c (omega arith)) in
    ground (arith, all)
reply-decoded false c ls items h =
    rw (read_items-check_items c 0 ls items (length c) h) (ground arith)

-- Every response that `decode_multi` accepts for some ranges and operation, `response` accepts
-- for a request with those ranges, that operation and reference: a write with the same successes
-- and failure codes in the same order, a read with no results.
pub response-decode_multi :
    (config : Config) (pdu : Bytes) (items : List ItemResult)
    → decode_multi pdu config.reference config.write (map (λ l. l.range) config.locations)
      ≡ ok items
    → response config pdu ≡ answered (if config.write then map outcome items else [])
unfolding decode_multi response
response-decode_multi config pdu items h =
    let (split, hs, h₁) = >>=-eq-ok (sections pdu 3 config.reference) _ h in
    let ranges = map (λ (l : Location). l.range) config.locations in
    let function : ℕ = if config.write then 5 else 4 in
    let (good, decoded) = decoded_part config.write split.0 split.1 ranges items function h₁ in
    let width : length ranges ≡ length config.locations = length-map config.locations _ in
    let a = acknowledged pdu config.reference split.0 split.1 hs in
    rw (response-acknowledged config pdu split.0 split.1 a (rw width at good))
      (reply-decoded config.write split.1 config.locations items decoded)
