-- ===== src/Agreement/Request.antt =====
-- `check_request` of the sequence oracle accepts every PDU that `request` builds.
use lean_s.Prelude.{
  ℕ, zero, suc, ◌+◌, ◌*◌, ◌%◌, ◌<◌, ◌≡◌, refl, sym, ap, ◌∙◌, Bool, true, false, not, ◌&&◌, ◌||◌,
  List, [], ◌∷◌, ◌++◌, ltb, ◌==◌, if◌then◌else◌, length, Bool-cases, none, some, inl, inr, arith,
  lt→ltb, length-append, slice, drop,
}
use lean_s.Error.{ok, ◌>>=◌, >>=-eq-ok}
use lean_s.Bytes.{Bytes, word, pack_word}
use lean_s.Bytes.Laws.{slice-section, drop-section, equal_refl}
use lean_s.Conversation.{
  MemoryRange, address, addresses, packet, payload, payload_from, write_data, request, valid_ranges,
}
use lean_s.Sequence.Sections.{sections}
use lean_s.Sequence.Request.{expected_address, check_addresses, check_write_items, check_request}
use lean_s.Agreement.Frame.{frame}
use lean_s.Agreement.Sections.{sections-frame}

packet-ok-frame :
    (kind reference : ℕ) (parameters content pdu : Bytes)
    → packet kind reference parameters content ≡ ok pdu
    → pdu ≡ frame kind reference parameters content
unfolding packet
packet-ok-frame kind reference parameters content pdu h = ground arith

pub sections-of-packet :
    (kind reference : ℕ) (parameters content pdu : Bytes)
    → packet kind reference parameters content ≡ ok pdu
    → sections pdu kind reference ≡ ok (parameters, content)
sections-of-packet kind reference parameters content pdu h =
    rw (packet-ok-frame kind reference parameters content pdu h)
      (sections-frame kind reference parameters content)

length-address : (r : MemoryRange) (a : Bytes) → address r ≡ ok a → length a ≡ 12
unfolding address
length-address r a h = ground arith

expected_address-eq-address : (r : MemoryRange) → expected_address r ≡ address r
unfolding expected_address address
expected_address-eq-address r = refl

pub length-addresses :
    (ranges : List MemoryRange) (items : Bytes)
    → addresses ranges ≡ ok items
    → length items ≡ 12 * length ranges
unfolding addresses
length-addresses [] items h = ground arith
length-addresses (r ∷ rs) items h =
    let (a, ha, h') = >>=-eq-ok (address r) _ h in
    let (t, ht, e) = >>=-eq-ok (addresses rs) _ h' in
    let len : length items ≡ length a + length t = ground (arith, length-append a t) in
    omega (arith, len, length-address r a ha, length-addresses rs t ht)

length-payload_from : (s i n : ℕ) → length (payload_from s i n) ≡ n
unfolding payload_from
length-payload_from s i zero = refl
length-payload_from s i (suc n) = ap suc (length-payload_from s (i + 1) n)

pub length-payload : (r : MemoryRange) → length (payload r) ≡ r.count
unfolding payload
length-payload r = length-payload_from r.start 0 r.count

check_addresses-addresses :
    (parameters : Bytes) (index : ℕ) (ranges : List MemoryRange) (items : Bytes)
    → addresses ranges ≡ ok items
    → drop (2 + index * 12) parameters ≡ items
    → check_addresses parameters index ranges ≡ ok tt
unfolding addresses check_addresses
check_addresses-addresses ps index [] items h e = refl
check_addresses-addresses ps index (r ∷ rs) items h e =
    let (a, ha, h') = >>=-eq-ok (address r) _ h in
    let (t, ht, e') = >>=-eq-ok (addresses rs) _ h' in
    let split : drop (2 + index * 12) ps ≡ a ++ t = ground arith in
    let n : 2 + index * 12 + length a ≡ 14 + index * 12 = omega (arith, length-address r a ha) in
    let m : 2 + index * 12 + length a ≡ 2 + (index + 1) * 12 =
      omega (arith, length-address r a ha) in
    let here : slice (2 + index * 12) (14 + index * 12) ps ≡ a =
      rw n at (slice-section (2 + index * 12) ps a t split) in
    let later : drop (2 + (index + 1) * 12) ps ≡ t =
      rw m at (drop-section (2 + index * 12) ps a t split) in
    rw (expected_address-eq-address r, ha)
      (rw here (rw (equal_refl a) (check_addresses-addresses ps (index + 1) rs t ht later)))

-- the padding behind an item
abbrev padding : List MemoryRange → MemoryRange → Bytes
padding rs r = if not (length rs == 0) && length (payload r) % 2 == 1 then 0 ∷ [] else []

write_data-cons :
    (r : MemoryRange) (rs : List MemoryRange) (content : Bytes)
    → write_data (r ∷ rs) ≡ ok content
    → (t : Bytes) × (write_data rs ≡ ok t)
      × (r.count * 8 < 65536)
      × (content ≡ 0 ∷ 4 ∷ (word (r.count * 8) ++ (payload r ++ (padding rs r ++ t))))
unfolding write_data
write_data-cons r rs content h =
    let (size, hs, h') = >>=-eq-ok (pack_word (length (payload r) * 8)) _ h in
    let (t, ht, e) = >>=-eq-ok (write_data rs) _ h' in
    (t, ht, ground (arith, length-payload r), ground (arith, length-payload r))

-- the offset behind an item, in the encoder's terms and in the checker's
item_end :
    (r : MemoryRange) (rs : List MemoryRange) (offset : ℕ)
    → (if not (length rs == 0) && r.count % 2 == 1
        then offset + (4 + r.count) + 1
        else offset + (4 + r.count))
      ≡ offset + 4 + length (payload r) + length (padding rs r)
item_end r rs offset = rw length-payload (ground arith)

length-item :
    (r : MemoryRange) (rs : List MemoryRange) (t : Bytes) (n : ℕ)
    → length (0 ∷ 4 ∷ (word n ++ (payload r ++ (padding rs r ++ t))))
      ≡ 4 + length (payload r) + length (padding rs r) + length t
length-item r rs t n =
    omega (arith, length-append (payload r) (padding rs r ++ t), length-append (padding rs r) t)

check_write_items-write_data :
    (ranges : List MemoryRange) (content whole : Bytes) (offset : ℕ)
    → write_data ranges ≡ ok content
    → drop offset whole ≡ content
    → check_write_items whole offset ranges ≡ ok (offset + length content)
unfolding check_write_items
check_write_items-write_data [] content whole offset h e =
    let none_left : [] ≡ content = unfold write_data in ground arith in
    rw (← none_left) (let n : offset ≡ offset + 0 = omega arith in ap ok n)
check_write_items-write_data (r ∷ rs) content whole offset h e =
    let (t, ht, small, c) = write_data-cons r rs content h in
    let head : Bytes = 0 ∷ 4 ∷ word (r.count * 8) in
    let body = payload r ++ (padding rs r ++ t) in
    let here = slice-section offset whole head body (e ∙ c) in
    let items = drop-section offset whole head body (e ∙ c) in
    let pads = drop-section (offset + 4) whole (payload r) (padding rs r ++ t) items in
    let later = drop-section (offset + 4 + length (payload r)) whole (padding rs r) t pads in
    let total : length content ≡ 4 + length (payload r) + length (padding rs r) + length t =
      ap length c ∙ length-item r rs t (r.count * 8) in
    rw (lt→ltb _ _ small) (
      rw here (
        rw (equal_refl head) (
          rw item_end
            (check_write_items-write_data rs t whole _ ht later ∙ ap ok (omega (arith, total))))))

-- the parts that a PDU is built from
record Built (reference : ℕ) (ranges : List MemoryRange) (write : Bool) (pdu : Bytes) : Type 0 where
  items : Bytes
  content : Bytes
  items_are : addresses ranges ≡ ok items
  content_is : (if write then write_data ranges else ok []) ≡ ok content
  framed : packet 1 reference ((if write then 5 else 4) ∷ length ranges ∷ items) content ≡ ok pdu

encoded :
    (reference : ℕ) (ranges : List MemoryRange) (write : Bool)
    → length ranges == 0 || ltb 20 (length ranges) ≡ false
    → not (valid_ranges write ranges) ≡ false
    → request reference ranges write ≡ (do
      items ← addresses ranges
      content ← (if write then write_data ranges else ok [])
      if ltb 65535 (length content) then ok none else do
        pdu ← packet 1 reference ((if write then 5 else 4) ∷ length ranges ∷ items) content
        ok (some pdu))
unfolding request
encoded reference ranges write p q = rw p (rw q refl)

refused :
    (reference : ℕ) (ranges : List MemoryRange) (write : Bool) (pdu : Bytes)
    → request reference ranges write ≡ ok (some pdu)
    → (length ranges == 0 || ltb 20 (length ranges) ≡ false)
      × (not (valid_ranges write ranges) ≡ false)
unfolding request
refused reference ranges write pdu h =
    elim (Bool-cases (length ranges == 0 || ltb 20 (length ranges))) [
      | inl p ↦ (cc (rw p at h), cc (rw p at h))
      | inr p ↦ (
        p,
        elim (Bool-cases (not (valid_ranges write ranges))) [
          | inl q ↦ cc (rw q at (rw p at h))
          | inr q ↦ q
        ],
      )
    ]

request-Built :
    (reference : ℕ) (ranges : List MemoryRange) (write : Bool) (pdu : Bytes)
    → request reference ranges write ≡ ok (some pdu)
    → Built reference ranges write pdu
request-Built reference ranges write pdu h =
    let (p, q) = refused reference ranges write pdu h in
    let (items, hi, h₁) =
      >>=-eq-ok (addresses ranges) _ (sym (encoded reference ranges write p q) ∙ h) in
    let (content, hc, h₂) = >>=-eq-ok (if write then write_data ranges else ok []) _ h₁ in
    record {
      items = items;
      content = content;
      items_are = hi;
      content_is = hc;
      framed = ground arith;
    }

-- Every PDU that `request` builds for ranges, reference and operation passes `check_request` at
-- the same reference, operation and ranges.
pub check_request-request :
    (reference : ℕ) (ranges : List MemoryRange) (write : Bool) (pdu : Bytes)
    → request reference ranges write ≡ ok (some pdu)
    → check_request pdu reference write ranges ≡ ok tt
unfolding check_request
check_request-request reference ranges true pdu h =
    let b = request-Built reference ranges true pdu h in
    let parameters : Bytes = 5 ∷ length ranges ∷ b.items in
    rw (sections-of-packet 1 reference parameters b.content pdu b.framed) (
      ground (
        arith,
        length-addresses ranges b.items b.items_are,
        check_addresses-addresses parameters 0 ranges b.items b.items_are refl,
        check_write_items-write_data ranges b.content b.content 0 b.content_is refl,
      ))
check_request-request reference ranges false pdu h =
    let b = request-Built reference ranges false pdu h in
    let parameters : Bytes = 4 ∷ length ranges ∷ b.items in
    let empty : [] ≡ b.content = cc b.content_is in
    rw (sections-of-packet 1 reference parameters b.content pdu b.framed) (
      ground (
        arith,
        length-addresses ranges b.items b.items_are,
        check_addresses-addresses parameters 0 ranges b.items b.items_are refl,
        empty,
      ))
