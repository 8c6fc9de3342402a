-- ===== src/Emulator/Areas.antt =====
-- The parsers and the multi-item read and write handlers of `MultiItemServer` in integration/run.py.
use lean_s.Prelude.{
  ℕ, zero, suc, ◌+◌, ◌*◌, ◌/◌, ◌%◌, Bool, true, false, not, ◌&&◌, ◌||◌, Option, none, some, List,
  [], ◌∷◌, ◌++◌, ltb, ◌==◌, if◌then◌else◌, get_elem?, length, slice, drop,
}
use lean_s.Error.{Result, ok, err, struct_error, index_error, key_error, ◌>>=◌, ◌>>◌, raise_if}
use lean_s.Bytes.{Bytes, byte_at, word_at, pack_word, from_bytes}
use lean_s.Emulator.Server.{AddressSpec, Snap7, Request, pack_byte}

-- raw[i]
unfoldable pub item_at : Bytes → ℕ → Result ℕ
item_at raw i = elim (get_elem? raw i) [ none ↦ err index_error | some b ↦ ok b ]

-- A dict that is empty has none of the keys.
unfoldable pub spec_of : Option AddressSpec → Result AddressSpec
spec_of none = err key_error
spec_of (some spec) = ok spec

-- the last octet behind an odd payload that another item follows
unfoldable pub pad : ℕ → ℕ → ℕ → Bytes
pad index count size = if ltb (index + 1) count && size % 2 == 1 then 0 ∷ [] else []

-- a read that fails
unfoldable pub missing_item : Bytes
missing_item = 0x0a ∷ 0 ∷ 0 ∷ 0 ∷ []

-- the size of an item to write, in octets
unfoldable pub written_size : ℕ → ℕ → ℕ
written_size transport encoded_length =
    if transport == 0x09 then encoded_length else encoded_length / 8

module _ (server : Snap7) where
  open server use {
    Parsed, Memory, ack_data, read_area, write_area, timer, counter, word_length, dword, real,
    parse, sequence, raw_parameters, parse_address, read_memory, write_memory, handle_read,
    handle_write,
  }

  -- word_len in (TIMER, COUNTER)
  unfoldable pub is_counting : ℕ → Bool
  is_counting word_len = word_len == timer || word_len == counter

  unfoldable pub parse_request : Bytes → Result (Request Parsed)
  parse_request pdu = do
    parsed ← parse pdu
    raise_if (ltb (length pdu) 10) struct_error
    let data_start = 10 + word_at pdu 6
    ok (record { parsed = parsed; raw_data = slice data_start (data_start + word_at pdu 8) pdu })

  unfoldable pub word_size : ℕ → ℕ
  word_size word_len =
      if is_counting word_len || word_len == word_length
      then 2
      else if word_len == dword || word_len == real
      then 4
      else 1

  -- TIMER and COUNTER addresses are octet offsets here.
  unfoldable pub direct : Bytes → Option AddressSpec → Option AddressSpec
  direct addr_spec none = none
  direct addr_spec (some spec) = some (
      if is_counting spec.word_len
      then record spec { start = from_bytes (slice 9 12 addr_spec) }
      else spec)

  unfoldable pub parse_address_specification : Bytes → Result (Option AddressSpec)
  parse_address_specification addr_spec = do
    spec ← parse_address addr_spec
    ok (direct addr_spec spec)

  -- the addresses of so many items, from an index on
  unfoldable pub specs_from : Bytes → ℕ → ℕ → Result (List (Option AddressSpec))
  specs_from parameters zero index = ok []
  specs_from parameters (suc n) index = do
    spec ← parse_address_specification (slice (2 + index * 12) (14 + index * 12) parameters)
    rest ← specs_from parameters n (index + 1)
    ok (spec ∷ rest)

  unfoldable pub multi_specs : Parsed → Result (List (Option AddressSpec))
  multi_specs request = do
    count ← item_at (raw_parameters request) 1
    specs_from (raw_parameters request) count 0

  unfoldable pub response_header : Parsed → ℕ → ℕ → Bytes → Result Bytes
  response_header request function count content = do
    kind ← pack_byte ack_data
    reference ← pack_word (sequence request)
    size ← pack_word (length content)
    code ← pack_byte function
    number ← pack_byte count
    ok (0x32 ∷ kind ∷ 0 ∷ 0 ∷ (reference ++ (0 ∷ 2 ∷ (size ++ (0 ∷ 0 ∷ code ∷ number ∷ content)))))

  -- whether the parent's handler of one item is used
  unfoldable pub is_single : Parsed → Result Bool
  is_single request = do
    count ← item_at (raw_parameters request) 1
    if count == 1
        then (do word_len ← item_at (raw_parameters request) 5; ok (not (is_counting word_len)))
        else ok false

  unfoldable pub found_item : ℕ → ℕ → AddressSpec → Bytes → Result Bytes
  found_item index count spec payload = do
    let transport = if is_counting spec.word_len then 0x09 else 0x04
    let encoded_length = if transport == 0x09 then length payload else length payload * 8
    size ← pack_word encoded_length
    ok (0xff ∷ transport ∷ (size ++ (payload ++ pad index count (length payload))))

  -- the item that a read of the memory comes to
  unfoldable pub answer_item : ℕ → ℕ → AddressSpec → Option Bytes → Result Bytes
  answer_item index count spec none = ok missing_item
  answer_item index count spec (some payload) = found_item index count spec payload

  unfoldable pub read_one : Memory → ℕ → ℕ → AddressSpec → Result Bytes
  read_one memory index count spec = answer_item index count spec (
      read_memory memory spec.area spec.db_number spec.start (spec.count * word_size spec.word_len))

  -- the loop over the items to read, from an index on
  unfoldable pub read_each : Memory → ℕ → ℕ → List (Option AddressSpec) → Result Bytes
  read_each memory index count [] = ok []
  read_each memory index count (parsed ∷ specs) = do
    spec ← spec_of parsed
    item ← read_one memory index count spec
    rest ← read_each memory (index + 1) count specs
    ok (item ++ rest)

  unfoldable pub read_many : Memory → Parsed → Result Bytes
  read_many memory request = do
    count ← item_at (raw_parameters request) 1
    specs ← multi_specs request
    content ← read_each memory 0 count specs
    response_header request read_area count content

  unfoldable pub read_dispatch : Memory → Request Parsed → Result Bool → Result Bytes × Memory
  read_dispatch memory request (err raised) = (err raised, memory)
  read_dispatch memory request (ok true) = handle_read memory request.parsed request.raw_data
  read_dispatch memory request (ok false) = (read_many memory request.parsed, memory)

  unfoldable pub handle_read_area : Memory → Request Parsed → Result Bytes × Memory
  handle_read_area memory request = read_dispatch memory request (is_single request.parsed)

  unfoldable pub write_one : Memory → Option AddressSpec → Bytes → Result ℕ × Memory
  write_one memory none payload = (err key_error, memory)
  write_one memory (some spec) payload =
      let (success, memory') = write_memory memory spec.area spec.db_number spec.start payload in
      (ok (if success then 0xff else 0x0a), memory')

  -- The loop over the items to write, on the octets from the item's offset on. Memory that is
  -- written stays written where a later item raises.
  unfoldable pub write_each :
      Memory → Bytes → ℕ → ℕ → List (Option AddressSpec) → Result Bytes × Memory
  write_each memory content index count [] = (ok [], memory)
  write_each memory content index count (parsed ∷ specs) =
      let size = written_size (byte_at content 1) (word_at content 2) in
      let (code, memory') = write_one memory parsed (slice 4 (4 + size) content) in
      let rest =
        write_each memory' (drop (4 + size + length (pad index count size)) content) (index + 1)
          count specs in
      if ltb (length content) 4 then (err struct_error, memory) else elim code [
        | err raised ↦ (err raised, memory')
        | ok c ↦ ((do codes ← rest.0; ok (c ∷ codes)), rest.1)
      ]

  -- The addresses are parsed before anything is written.
  unfoldable pub write_parsed :
      Memory → Request Parsed → ℕ → Result (List (Option AddressSpec)) → Result Bytes × Memory
  write_parsed memory request count (err raised) = (err raised, memory)
  write_parsed memory request count (ok specs) =
      let (results, memory') = write_each memory request.raw_data 0 count specs in
      ((do codes ← results; response_header request.parsed write_area count codes), memory')

  unfoldable pub write_many : Memory → Request Parsed → Result ℕ → Result Bytes × Memory
  write_many memory request (err raised) = (err raised, memory)
  write_many memory request (ok count) =
      write_parsed memory request count (multi_specs request.parsed)

  unfoldable pub write_dispatch : Memory → Request Parsed → Result Bool → Result Bytes × Memory
  write_dispatch memory request (err raised) = (err raised, memory)
  write_dispatch memory request (ok true) = handle_write memory request.parsed request.raw_data
  write_dispatch memory request (ok false) =
      write_many memory request (item_at (raw_parameters request.parsed) 1)

  unfoldable pub handle_write_area : Memory → Request Parsed → Result Bytes × Memory
  handle_write_area memory request = write_dispatch memory request (is_single request.parsed)
