-- ===== src/Emulator/Writes.antt =====
-- A multi-item write to `MultiItemServer` in integration/run.py: the memory behind it, and what the
-- sequence oracle makes of the reply.
use lean_s.Prelude.{
  ℕ, suc, ◌+◌, ◌*◌, ◌/◌, ◌%◌, ◌≤◌, ◌<◌, ◌≡◌, refl, sym, ap, ◌∙◌, true, false, not, ◌&&◌, Option,
  none, some, List, [], ◌∷◌, ◌++◌, map, arith, ltb, leb, ◌==◌, if◌then◌else◌, length, drop, slice,
  length-drop, drop-drop, drop-append,
}
use lean_s.Error.{ok, ◌>>=◌}
use lean_s.Bytes.{Bytes, word, byte_at}
use lean_s.Bytes.Laws.{byte_at-drop, slice-section, drop-section}
use lean_s.Conversation.Types.{MemoryRange}
use lean_s.Sequence.Multi.{item_result, write_item, decode_items, decode_multi}
use lean_s.Agreement.Frame.{frame}
use lean_s.Emulator.Server.{AddressSpec, Snap7, Request}
use lean_s.Emulator.Areas.{
  item_at, pad, multi_specs, response_header, written_size, write_one, write_each, write_parsed,
  write_many, write_dispatch, handle_write_area,
}
use lean_s.Emulator.Reads.{pad-more}
use lean_s.Emulator.Exchange.{response_header-frame, decode_multi-frame, is_single-many}

-- An item of a write: its transport size, and its payload.
abbrev pub Item : Type 0
Item = ℕ × Bytes

-- the length field of an item: octets for the transport size 9, bits for every other
abbrev pub length_field : ℕ → ℕ → ℕ
length_field transport n = if transport == 9 then n else n * 8

-- the octet behind an odd payload that others follow
abbrev pub odd_pad : Bytes → List Item → Bytes
odd_pad payload items = if not (length items == 0) && length payload % 2 == 1 then 0 ∷ [] else []

-- an item and what follows it
abbrev item_bytes : ℕ → Bytes → Bytes → Bytes
item_bytes transport payload behind =
    0 ∷ transport ∷ (word (length_field transport (length payload)) ++ (payload ++ behind))

-- the data section of a write
unfoldable pub encoded : List Item → Bytes
encoded [] = []
encoded ((transport, payload) ∷ items) =
    item_bytes transport payload (odd_pad payload items ++ encoded items)

size_back :
    (transport n : ℕ)
    → written_size transport (length_field transport n / 256 * 256 + length_field transport n % 256)
      ≡ n
unfolding written_size
size_back transport n = ground arith

codes_decoded :
    (payload : Bytes) (offset : ℕ) (codes : Bytes) (ranges : List MemoryRange)
    → drop offset payload ≡ codes
    → length codes ≡ length ranges
    → decode_items true payload offset ranges
      ≡ ok (map (λ code. item_result code none) codes, offset + length codes)
unfolding decode_items write_item
codes_decoded payload offset [] [] left n = ap (λ k. ok ([], k)) (omega arith)
codes_decoded payload offset [] (r ∷ ranges) left n = absurd (omega arith)
codes_decoded payload offset (c ∷ codes) [] left n = absurd (omega arith)
codes_decoded payload offset (c ∷ codes) (r ∷ ranges) left n =
    let here : byte_at payload offset ≡ c =
      ap (byte_at payload) (let z : offset ≡ offset + 0 = omega arith in z)
      ∙ (sym (byte_at-drop payload offset 0) ∙ ap (λ k. byte_at k 0) left) in
    let room : leb (length payload) offset ≡ false =
      ground (arith, length-drop offset payload, ap length left) in
    let next : drop (offset + 1) payload ≡ codes =
      sym (drop-drop offset 1 payload) ∙ ap (drop 1) left in
    rw (room, here, codes_decoded payload (offset + 1) codes ranges next (omega arith))
      (ap (λ k. ok (map (λ code. item_result code none) (c ∷ codes), k)) (omega arith))

module _ (server : Snap7) (acknowledges : server.ack_data ≡ 3) where
  open server use {Parsed, Memory, sequence, raw_parameters, write_memory}

  -- The writes of items at addresses, one after the other: their status octets and the memory
  -- behind them.
  unfoldable pub written : Memory → List AddressSpec → List Item → Bytes × Memory
  written memory [] items = ([], memory)
  written memory (spec ∷ specs) [] = ([], memory)
  written memory (spec ∷ specs) ((transport, payload) ∷ items) =
      let (done, memory') = write_memory memory spec.area spec.db_number spec.start payload in
      let (codes, memory'') = written memory' specs items in
      ((if done then 0xff else 0x0a) ∷ codes, memory'')

  length-written :
      (memory : Memory) (specs : List AddressSpec) (items : List Item)
      → length specs ≡ length items
      → length (written memory specs items).0 ≡ length specs
  unfolding written
  length-written memory [] items e = refl
  length-written memory (spec ∷ specs) [] e = absurd (omega arith)
  length-written memory (spec ∷ specs) ((transport, payload) ∷ items) e = ap suc (
      length-written (write_memory memory spec.area spec.db_number spec.start payload).1 specs items
        (omega arith))

  write_each-nil :
      (memory : Memory) (index count : ℕ)
      → write_each server memory [] index count [] ≡ (ok [], memory)
  unfolding write_each
  write_each-nil memory index count = refl

  -- One item of the loop, where its octets are known.
  write_each-cons :
      (memory : Memory) (index count : ℕ) (spec : AddressSpec) (specs : List (Option AddressSpec))
      (transport : ℕ) (payload behind : Bytes)
      → (let (done, memory') = write_memory memory spec.area spec.db_number spec.start payload in
          let rest = write_each server memory' behind (index + 1) count specs in
          write_each server memory
            (item_bytes transport payload (pad index count (length payload) ++ behind))
            index
            count
            (some spec ∷ specs)
          ≡ ((do codes ← rest.0; ok ((if done then 0xff else 0x0a) ∷ codes)), rest.1))
  unfolding write_each write_one
  write_each-cons memory index count spec specs transport payload behind =
      let size = size_back transport (length payload) in
      let pads = pad index count (length payload) in
      let item = item_bytes transport payload (pads ++ behind) in
      let whole : slice 4 (4 + length payload) item ≡ payload =
        slice-section 4 item payload (pads ++ behind) refl in
      let next : drop (4 + length payload + length pads) item ≡ behind =
        sym (drop-drop (4 + length payload) (length pads) item)
        ∙ ap (drop (length pads)) (drop-section 4 item payload (pads ++ behind) refl)
        ∙ drop-append (length pads) pads behind refl in
      let long : ltb (suc (suc (suc (suc (length (payload ++ (pads ++ behind))))))) 4 ≡ false =
        ground arith in
      rw (size, whole, next, long) refl

  write_each-written :
      (memory : Memory) (index count : ℕ) (specs : List AddressSpec) (items : List Item)
      → length specs ≡ length items
      → index + length specs ≡ count
      → write_each server memory (encoded items) index count (map some specs)
        ≡ (ok (written memory specs items).0, (written memory specs items).1)
  unfolding written encoded
  write_each-written memory index count [] [] e n = write_each-nil memory index count
  write_each-written memory index count [] (p ∷ items) e n = absurd (omega arith)
  write_each-written memory index count (spec ∷ specs) [] e n = absurd (omega arith)
  write_each-written memory index count (spec ∷ specs) ((transport, payload) ∷ items) e n =
      let (done, memory') = write_memory memory spec.area spec.db_number spec.start payload in
      let same_pad : odd_pad payload items ≡ pad index count (length payload) =
        sym (pad-more index count (length payload) items (omega arith)) in
      ap
        (λ k.
          write_each server memory (item_bytes transport payload (k ++ encoded items)) index count
            (some spec ∷ map some specs))
        same_pad
      ∙ write_each-cons memory index count spec (map some specs) transport payload (encoded items)
      ∙ ap (λ k. ((do codes ← k.0; ok ((if done then 0xff else 0x0a) ∷ codes)), k.1))
          (write_each-written memory' (index + 1) count specs items (omega arith) (omega arith))

  write_many-written :
      (memory : Memory) (request : Request Parsed) (specs : List AddressSpec) (items : List Item)
      → item_at (raw_parameters request.parsed) 1 ≡ ok (length specs)
      → multi_specs server request.parsed ≡ ok (map some specs)
      → request.raw_data ≡ encoded items
      → length specs ≡ length items
      → write_many server memory request (ok (length specs)) ≡ (
        response_header server request.parsed server.write_area
            (length specs)
            (written memory specs items).0,
        (written memory specs items).1,
      )
  unfolding write_many write_parsed
  write_many-written memory request specs items counted parsed raw n =
      ap (write_parsed server memory request (length specs)) parsed
      ∙ ap
          (λ k. (
            (do
              codes ← k.0
              response_header server request.parsed server.write_area (length specs) codes),
            k.1,
          ))
          (ap (λ k. write_each server memory k 0 (length specs) (map some specs)) raw
            ∙ write_each-written memory 0 (length specs) specs items n (omega arith))

  -- A write of 2 to 255 items is answered, where its data section encodes a payload for each: of any
  -- transport size, with the length in octets for the transport size 9 and in bits, eight for each
  -- octet, for every other. The memory behind it is that of the writes one after the other, and
  -- the sequence oracle decodes the answer to the success or the failure of each, in their order.
  pub handle_write_area-decode_multi :
      (memory : Memory) (request : Request Parsed) (specs : List AddressSpec) (items : List Item)
      (ranges : List MemoryRange)
      → server.write_area ≡ 5
      → sequence request.parsed < 65536
      → item_at (raw_parameters request.parsed) 1 ≡ ok (length specs)
      → multi_specs server request.parsed ≡ ok (map some specs)
      → 2 ≤ length specs
      → length specs < 256
      → request.raw_data ≡ encoded items
      → length specs ≡ length items
      → length specs ≡ length ranges
      → (pdu : Bytes) × (handle_write_area server memory request
          ≡ (ok pdu, (written memory specs items).1))
        × (decode_multi pdu (sequence request.parsed) true ranges
            ≡ ok (map (λ code. item_result code none) (written memory specs items).0))
  unfolding handle_write_area write_dispatch
  handle_write_area-decode_multi memory request specs items ranges writes hs counted parsed lo hi
        raw n as_many =
      let codes = (written memory specs items).0 in
      let size = length-written memory specs items n in
      let answered =
        ap (λ k. response_header server request.parsed k (length specs) codes) writes
        ∙ response_header-frame server acknowledges request.parsed 5 (length specs) codes hs
            (omega arith) hi (omega arith)
        ∙ ap (λ k. ok (frame 3 (sequence request.parsed) (5 ∷ k ∷ []) codes)) as_many in
      (
        frame 3 (sequence request.parsed) (5 ∷ length ranges ∷ []) codes,
        rw (is_single-many server acknowledges request.parsed (length specs) counted lo) (
            ap (write_many server memory request) counted
            ∙ write_many-written memory request specs items counted parsed raw n
            ∙ ap (λ k. (k, (written memory specs items).1)) answered),
        decode_multi-frame server acknowledges (sequence request.parsed) true codes ranges
            (map (λ code. item_result code none) codes)
            (codes_decoded codes 0 codes ranges refl (omega arith)
              ∙ ap (λ k. ok (map (λ code. item_result code none) codes, k)) (omega arith)),
      )
