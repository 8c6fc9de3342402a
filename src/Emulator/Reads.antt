-- ===== src/Emulator/Reads.antt =====
-- A multi-item read that `MultiItemServer` in integration/run.py answers, decoded by the sequence
-- oracle.
use lean_s.Prelude.{
  ℕ, suc, ◌+◌, ◌*◌, ◌/◌, ◌%◌, ◌≤◌, ◌<◌, ◌≡◌, refl, sym, ap, ◌∙◌, Bool, true, false, not, ◌&&◌,
  Option, none, some, List, [], ◌∷◌, ◌++◌, map, arith, ltb, ◌==◌, if◌then◌else◌, length, drop,
  length-append, length-drop, drop-append, drop-drop, append-nil, append_assoc, Bool-cases,
  Option-cases, inl, inr,
}
use lean_s.Error.{Result, ok}
use lean_s.Bytes.{Bytes, word, byte_at, word_at}
use lean_s.Bytes.Laws.{byte_at-drop, slice-section, drop-section, word_parts}
use lean_s.Conversation.Types.{MemoryRange}
use lean_s.Sequence.Multi.{
  ItemResult, success, failure, read_size, item_result, read_item, decode_items,
}
use lean_s.Emulator.Server.{AddressSpec, Snap7}
use lean_s.Emulator.Areas.{
  spec_of, pad, missing_item, is_counting, word_size, found_item, answer_item, read_one, read_each,
}

-- The octets at an offset, where what is left from there is known.
byte_from :
    (payload rest : Bytes) (offset i : ℕ)
    → drop offset payload ≡ rest
    → byte_at payload (offset + i) ≡ byte_at rest i
byte_from payload rest offset i e = sym (byte_at-drop payload offset i) ∙ ap (λ k. byte_at k i) e

word_from :
    (payload rest : Bytes) (offset i : ℕ)
    → drop offset payload ≡ rest
    → word_at payload (offset + i) ≡ word_at rest i
word_from payload rest offset i e =
    let e' : suc (offset + i) ≡ offset + suc i = omega arith in
    rw (e', byte_from payload rest offset i e, byte_from payload rest offset (suc i) e) refl

-- One item that was found: four octets, its content, and padding where another item follows.
abbrev found_bytes : Bytes → Bytes → Bytes → Bytes
found_bytes chunk padding rest =
    0xff ∷ 4 ∷ (word (length chunk * 8) ++ (chunk ++ (padding ++ rest)))

module _ (payload chunk padding rest : Bytes) (offset : ℕ)
    (left : drop offset payload ≡ found_bytes chunk padding rest) where
  content_from : drop (offset + 4) payload ≡ chunk ++ (padding ++ rest)
  content_from = sym (drop-drop offset 4 payload) ∙ ap (drop 4) left

  length_from : length payload ≡ offset + (4 + length chunk + length padding + length rest)
  length_from = omega (
    arith,
    length-drop offset payload,
    ap length left,
    length-append chunk (padding ++ rest),
    length-append padding rest,
  )

  pub read_item-found :
      (item : MemoryRange) (more : Bool)
      → length chunk ≡ item.count
      → length chunk < 8192
      → padding ≡ (if more && length chunk % 2 == 1 then 0 ∷ [] else [])
      → read_item payload offset item more
        ≡ ok (success (some chunk), offset + (4 + length chunk + length padding))
  unfolding read_item read_size item_result
  read_item-found item more counted small padded =
      let code : byte_at payload offset ≡ 255 =
        ap (byte_at payload) (let z : offset ≡ offset + 0 = omega arith in z)
        ∙ byte_from payload (found_bytes chunk padding rest) offset 0 left in
      let transport : byte_at payload (offset + 1) ≡ 4 =
        byte_from payload (found_bytes chunk padding rest) offset 1 left in
      let size : word_at payload (offset + 2) ≡ length chunk * 8 =
        word_from payload (found_bytes chunk padding rest) offset 2 left
        ∙ word_parts (length chunk * 8) in
      let content = slice-section (offset + 4) payload chunk (padding ++ rest) content_from in
      let eighth : length chunk * 8 % 8 ≡ 0 = omega arith in
      let whole : length chunk * 8 / 8 ≡ length chunk = omega arith in
      let room = length_from in
      let padding_size = ap length padded in
      rw (code, transport, size, eighth, whole, content, ← counted) (ground arith)

  pub rest-found : drop (offset + (4 + length chunk + length padding)) payload ≡ rest
  rest-found =
      let e : offset + (4 + length chunk + length padding)
          ≡ offset + 4 + length chunk + length padding =
        omega arith in
      rw e (
        sym (drop-drop (offset + 4 + length chunk) (length padding) payload)
        ∙ ap (drop (length padding))
            (drop-section (offset + 4) payload chunk (padding ++ rest) content_from)
        ∙ drop-append (length padding) padding rest refl)

module _ (payload rest : Bytes) (offset : ℕ)
    (left : drop offset payload ≡ 0x0a ∷ 0 ∷ 0 ∷ 0 ∷ rest) where
  read_item-missing :
      (item : MemoryRange) (more : Bool)
      → read_item payload offset item more ≡ ok (failure 10, offset + 4)
  unfolding read_item read_size item_result
  read_item-missing item more =
      let code : byte_at payload offset ≡ 10 =
        ap (byte_at payload) (let z : offset ≡ offset + 0 = omega arith in z)
        ∙ byte_from payload (0x0a ∷ 0 ∷ 0 ∷ 0 ∷ rest) offset 0 left in
      let transport : byte_at payload (offset + 1) ≡ 0 =
        byte_from payload (0x0a ∷ 0 ∷ 0 ∷ 0 ∷ rest) offset 1 left in
      let size : word_at payload (offset + 2) ≡ 0 =
        word_from payload (0x0a ∷ 0 ∷ 0 ∷ 0 ∷ rest) offset 2 left in
      let room : length payload ≡ offset + 4 + length rest =
        omega (arith, length-drop offset payload, ap length left) in
      let short : ltb (length payload) (offset + 4) ≡ false = ground arith in
      let short' : ltb (length payload) (offset + 4 + 0) ≡ false = ground arith in
      let end : offset + 4 + 0 ≡ offset + 4 = omega arith in
      elim (Bool-cases more) [
        | inl e ↦ rw (code, transport, size, short, short', end, e) refl
        | inr e ↦ rw (code, transport, size, short, short', end, e) refl
      ]

  rest-missing : drop (offset + 4) payload ≡ rest
  rest-missing = sym (drop-drop offset 4 payload) ∙ ap (drop 4) left

-- What a read of the memory comes to for the client.
abbrev pub outcome : Option Bytes → ItemResult
outcome none = failure 10
outcome (some content) = success (some content)

-- Content that is there has as many octets as the range, and few enough for its bit count.
abbrev pub Sized : Option Bytes → ℕ → Type 0
Sized none count = Unit
Sized (some content) count = (length content ≡ count) × (count < 8192)

-- the octets that the items of a reply take at most
abbrev pub reserved : List MemoryRange → ℕ
reserved [] = 0
reserved (range ∷ ranges) = 5 + range.count + reserved ranges

Sized-found :
    {o : Option Bytes} {chunk : Bytes} {count : ℕ}
    → o ≡ some chunk
    → Sized o count
    → (length chunk ≡ count) × (length chunk < 8192)
Sized-found {o} {chunk} {count} e sized =
    let (counted, small) : (length chunk ≡ count) × (count < 8192) = rw e at sized in
    (counted, omega arith)

length-pad : (index count size : ℕ) → length (pad index count size) ≤ 1
unfolding pad
length-pad index count size = ground arith

pub pad-more :
    {A : Type 0} (index count size : ℕ) (ranges : List A)
    → index + suc (length ranges) ≡ count
    → pad index count size ≡ (if not (length ranges == 0) && size % 2 == 1 then 0 ∷ [] else [])
unfolding pad
pad-more index count size [] h = ground arith
pad-more index count size (r ∷ ranges) h = ground arith

module _ (server : Snap7) where
  open server use {Parsed, Memory, sequence, raw_parameters, read_memory}

  -- the octets in memory that an address names
  abbrev pub stored : Memory → AddressSpec → Option Bytes
  stored memory spec =
      read_memory memory spec.area spec.db_number spec.start
        (spec.count * word_size server spec.word_len)

  abbrev pub outcomes : Memory → List AddressSpec → List ItemResult
  outcomes memory [] = []
  outcomes memory (spec ∷ specs) = outcome (stored memory spec) ∷ outcomes memory specs

  -- The addresses are not of timers and counters, and name as many octets as the ranges.
  abbrev pub Agree : Memory → List AddressSpec → List MemoryRange → Type 0
  Agree memory [] [] = Unit
  Agree memory [] (range ∷ ranges) = ⊥
  Agree memory (spec ∷ specs) [] = ⊥
  Agree memory (spec ∷ specs) (range ∷ ranges) =
      (is_counting server spec.word_len ≡ false)
      × Sized (stored memory spec) range.count
      × Agree memory specs ranges

  pub Agree-length :
      (memory : Memory) (specs : List AddressSpec) (ranges : List MemoryRange)
      → Agree memory specs ranges
      → length specs ≡ length ranges
  Agree-length memory [] [] h = refl
  Agree-length memory [] (range ∷ ranges) h = absurd h
  Agree-length memory (spec ∷ specs) [] h = absurd h
  Agree-length memory (spec ∷ specs) (range ∷ ranges) h =
      ap suc (Agree-length memory specs ranges h.2)

  read_one-found :
      (memory : Memory) (index count : ℕ) (spec : AddressSpec) (chunk : Bytes)
      → is_counting server spec.word_len ≡ false
      → stored memory spec ≡ some chunk
      → length chunk < 8192
      → read_one server memory index count spec
        ≡ ok (found_bytes chunk (pad index count (length chunk)) [])
  unfolding read_one answer_item found_item
  read_one-found memory index count spec chunk plain e small =
      let eighths : ltb (length chunk * 8) 65536 ≡ true = ground arith in
      ap (answer_item server index count spec) e ∙ rw (plain, eighths, append-nil) refl

  read_one-missing :
      (memory : Memory) (index count : ℕ) (spec : AddressSpec)
      → stored memory spec ≡ none
      → read_one server memory index count spec ≡ ok (0x0a ∷ 0 ∷ 0 ∷ 0 ∷ [])
  unfolding read_one answer_item missing_item
  read_one-missing memory index count spec e = ap (answer_item server index count spec) e

  -- The octets of items are read back as what the memory held, from any offset where they stand.
  abbrev pub Readable : Memory → List AddressSpec → List MemoryRange → Result Bytes → Type 0
  Readable memory specs ranges called =
      (content : Bytes) × (called ≡ ok content)
      × (length content ≤ reserved ranges)
      × ((payload : Bytes) (offset : ℕ)
          → drop offset payload ≡ content
          → decode_items false payload offset ranges
            ≡ ok (outcomes memory specs, offset + length content))

  module _ (memory : Memory) (index count : ℕ) (spec : AddressSpec) (specs : List AddressSpec)
      (range : MemoryRange) (ranges : List MemoryRange)
      (behind : Readable memory specs ranges
        (read_each server memory (index + 1) count (map some specs))) where
    Readable-missing :
        stored memory spec ≡ none
        → Readable memory
            (spec ∷ specs)
            (range ∷ ranges)
            (read_each server memory index count (map some (spec ∷ specs)))
    unfolding read_each spec_of decode_items
    Readable-missing missing =
        let (content, e, short, decoded) = behind in
        (
          0x0a ∷ 0 ∷ 0 ∷ 0 ∷ content,
          rw (read_one-missing memory index count spec missing, e) refl,
          omega arith,
          λ payload offset left.
              rw
                (
                  read_item-missing payload content offset left range (not (length ranges == 0)),
                  decoded payload (offset + 4) (rest-missing payload content offset left),
                )
                (ap (λ k. ok (outcome k ∷ outcomes memory specs, offset + 4 + length content))
                    (sym missing)
                  ∙ ap (λ k. ok (outcomes memory (spec ∷ specs), k)) (omega arith)),
        )

    Readable-found :
        (chunk : Bytes)
        → stored memory spec ≡ some chunk
        → is_counting server spec.word_len ≡ false
        → length chunk ≡ range.count
        → length chunk < 8192
        → pad index count (length chunk)
          ≡ (if not (length ranges == 0) && length chunk % 2 == 1 then 0 ∷ [] else [])
        → Readable memory
            (spec ∷ specs)
            (range ∷ ranges)
            (read_each server memory index count (map some (spec ∷ specs)))
    unfolding read_each spec_of decode_items
    Readable-found chunk found plain counted small padded =
        let (content, e, short, decoded) = behind in
        let padding = pad index count (length chunk) in
        let whole : found_bytes chunk padding [] ++ content ≡ found_bytes chunk padding content =
          rw (append-nil, append_assoc) refl in
        let size = ap length whole in
        let one : length padding ≤ 1 = length-pad index count (length chunk) in
        (
          found_bytes chunk padding content,
          rw (read_one-found memory index count spec chunk plain found small, e) (ap ok whole),
          omega
              (arith, length-append chunk (padding ++ content), length-append padding content, one),
          λ payload offset left.
              rw
                (
                  read_item-found payload chunk padding content offset left range
                      (not (length ranges == 0)) counted small padded,
                  decoded payload (offset + (4 + length chunk + length padding))
                      (rest-found payload chunk padding content offset left),
                )
                (ap
                    (λ k. ok (
                      outcome k ∷ outcomes memory specs,
                      offset + (4 + length chunk + length padding) + length content,
                    ))
                    (sym found)
                  ∙ ap (λ k. ok (outcomes memory (spec ∷ specs), k))
                      (omega (
                        arith,
                        length-append chunk (padding ++ content),
                        length-append padding content,
                      ))),
        )

  Readable-nil :
      (memory : Memory) (index count : ℕ)
      → Readable memory [] [] (read_each server memory index count [])
  unfolding read_each decode_items
  Readable-nil memory index count =
      ([], refl, omega arith, λ payload offset left. ap (λ k. ok ([], k)) (omega arith))

  pub read_each-Readable :
      (memory : Memory) (index count : ℕ) (specs : List AddressSpec) (ranges : List MemoryRange)
      → Agree memory specs ranges
      → index + length specs ≡ count
      → Readable memory specs ranges (read_each server memory index count (map some specs))
  read_each-Readable memory index count [] [] h n = Readable-nil memory index count
  read_each-Readable memory index count [] (range ∷ ranges) h n = absurd h
  read_each-Readable memory index count (spec ∷ specs) [] h n = absurd h
  read_each-Readable memory index count (spec ∷ specs) (range ∷ ranges) (plain, sized, h) n =
      let behind = read_each-Readable memory (index + 1) count specs ranges h (omega arith) in
      elim (Option-cases (stored memory spec)) [
        | inl missing ↦ Readable-missing memory index count spec specs range ranges behind missing
        | inr (chunk, found) ↦
            let (counted, small) = Sized-found found sized in
            Readable-found memory index count spec specs range ranges behind chunk found plain
              counted small
              (pad-more index count (length chunk) ranges
                (omega (arith, Agree-length memory specs ranges h)))
      ]
