-- ===== src/Tests/Servers.antt =====
-- The emulator's handlers, with a small server in the place of python-snap7's.
use native.Mathlib.Decide.{ℕ_discrete}
use lean_s.Prelude.{
  ℕ, ◌+◌, ◌*◌, ◌/◌, ◌<◌, ◌≡◌, refl, Bool, true, false, Option, none, some, List, [], ◌∷◌, ◌++◌, map,
  arith, ltb, ◌==◌, if◌then◌else◌, length, take, drop, slice,
}
use lean_s.Error.{ok, err, value_error}
use lean_s.Bytes.{Bytes, byte_at, word, word_at, from_bytes}
use lean_s.Conversation.Types.{MemoryRange}
use lean_s.Sequence.Multi.{item_result, decode_multi}
use lean_s.Sequence.Userdata.{decode_conversation}
use lean_s.Value.Integer.{ℤ, pos, negsuc}
use lean_s.Emulator.Server.{AddressSpec, Snap7, Request, State, initial}
use lean_s.Emulator.Szl.{
  justified, all_long, concat, szl_record, components, component_names, found, get_szl_data,
  handle_szl,
}
use lean_s.Emulator.Upload.{
  int, strip_left, is_space, signed_integer, integer_of, digits, handle_start_upload,
}
use lean_s.Emulator.Blocks.{is_digit}
use lean_s.Emulator.Uploads.{receive, upload_run, labelled}
use lean_s.Emulator.Download.{upload-conversation}
use lean_s.Emulator.Areas.{
  item_at, multi_specs, specs_from, parse_address_specification, direct, is_counting,
  handle_write_area,
}
use lean_s.Emulator.Writes.{Item, encoded, written, handle_write_area-decode_multi}
use lean_s.Emulator.Fragments.{Asking, run}
use lean_s.Emulator.Collected.{szl_case, collect}
use lean_s.Emulator.Lists.{szl-conversation, szl-reassembled}
use lean_s.Emulator.Isolation.{Apart, here, next, szl, Others-Apart}

-- a parsed request: its reference, its parameters and its data
abbrev Call : Type 0
Call = ℕ × Bytes × Bytes

-- the fields of an address of 12 octets
abbrev address_of : Bytes → AddressSpec
address_of raw = record {
  area = byte_at raw 8;
  db_number = word_at raw 6;
  start = from_bytes (slice 9 12 raw) / 8;
  count = word_at raw 4;
  word_len = byte_at raw 3;
}

abbrev read_block : Bytes → ℕ → ℕ → ℕ → ℕ → Option Bytes
read_block memory area db start size =
    if ltb (length memory) (start + size) then none else some (slice start (start + size) memory)

abbrev write_block : Bytes → ℕ → ℕ → ℕ → Bytes → Bool × Bytes
write_block memory area db start new =
    if ltb (length memory) (start + length new)
    then (false, memory)
    else (true, take start memory ++ (new ++ drop (start + length new) memory))

abbrev the_block : Bytes → ℤ → Option Bytes
the_block memory (pos n) = if n == 1 then some memory else none
the_block memory (negsuc n) = none

-- a server of one data block, whose handlers of one item are not used
abbrev small_server : Snap7
small_server = record {
  Parsed = Call;
  Params = ℕ;
  Memory = Bytes;
  ack_data = 3;
  userdata = 7;
  read_area = 4;
  write_area = 5;
  start_upload = 0x1d;
  upload = 0x1e;
  timer = 0x1d;
  counter = 0x1c;
  word_length = 4;
  dword = 6;
  real = 8;
  parse = λ pdu. ok (word_at pdu 4, slice 10 (10 + word_at pdu 6) pdu, []);
  sequence = λ call. call.0;
  raw_parameters = λ call. call.1;
  content = λ call. call.2;
  params_sequence = λ n. n;
  parse_address = λ raw. ok (some (address_of raw));
  read_memory = read_block;
  write_memory = write_block;
  db_block = the_block;
  cpu_state = λ memory. 8;
  handle_read = λ memory call raw. (err value_error, memory);
  handle_write = λ memory call raw. (err value_error, memory);
  success_response = λ call n payload. ok payload;
  userdata_error = λ call code. ok (word code);
  error_response = λ call code. ok (word code);
}

abbrev block : Bytes
block = 10 ∷ 11 ∷ 12 ∷ 13 ∷ 14 ∷ []

abbrev idle : State Bytes ℕ
unfolding initial
idle = initial block

-- the component list: 212 octets, in five fragments
abbrev component_request : Call
component_request = (9, [], 0 ∷ 0x1c ∷ 0 ∷ 0 ∷ [])

abbrev component_data : Bytes
component_data = word 34 ++ (word 6 ++ concat (components 0 component_names))

component_found : get_szl_data 8 0x1c 0 ≡ ok (some component_data)
unfolding get_szl_data found szl_record all_long concat components component_names justified
component_found = refl

component_size : length component_data ≡ 208
unfolding concat components component_names justified
component_size = refl

-- a request of the same list with another reference
abbrev asked_by : ℕ → Call × ℕ
asked_by reference = ((reference, [], []), 1)

-- each with a reference of its own
abbrev later_requests : List (Call × ℕ)
later_requests = asked_by 10 ∷ asked_by 11 ∷ asked_by 12 ∷ asked_by 13 ∷ []

-- all with the reference of the first
abbrev repeated_requests : List (Call × ℕ)
repeated_requests = asked_by 9 ∷ asked_by 9 ∷ asked_by 9 ∷ asked_by 9 ∷ []

asked_by-Asking :
    (a b c d : ℕ)
    → a < 65536
    → b < 65536
    → c < 65536
    → d < 65536
    → Asking small_server refl (asked_by a ∷ asked_by b ∷ asked_by c ∷ asked_by d ∷ [])
asked_by-Asking a b c d ha hb hc hd =
    let one : 0 < 1 = omega arith in
    let small : 1 < 256 = omega arith in
    (ha, one, small, (hb, one, small, (hc, one, small, (hd, one, small, tt))))

szl-conversation_example :
    (pdus : List Bytes) × ((run small_server refl ℕ_discrete idle 5
        ((component_request, 0) ∷ later_requests)).0
      ≡ map ok pdus)
    × (collect (9 ∷ 10 ∷ 11 ∷ 12 ∷ 13 ∷ []) pdus ≡ some (word 0x1c ++ (word 0 ++ component_data)))
szl-conversation_example =
    szl-conversation small_server refl ℕ_discrete idle component_request 0 5 later_requests
      component_data
      (
        omega arith,
        refl,
        omega arith,
        component_found,
        asked_by-Asking 10 11 12 13 (omega arith) (omega arith) (omega arith) (omega arith),
        omega (arith, component_size),
        omega (arith, component_size),
      )

szl-reassembled_example :
    (pdus : List Bytes) × ((run small_server refl ℕ_discrete idle 5
        ((component_request, 0) ∷ repeated_requests)).0
      ≡ map ok pdus)
    × (decode_conversation (szl_case 9 8 300) pdus ≡ ok (word 0x1c ++ (word 0 ++ component_data)))
szl-reassembled_example =
    szl-reassembled small_server refl ℕ_discrete 8 300 idle component_request 0 5 repeated_requests
      component_data
      (
        omega arith,
        refl,
        omega arith,
        component_found,
        asked_by-Asking 9 9 9 9 (omega arith) (omega arith) (omega arith) (omega arith),
        omega (arith, component_size),
        omega (arith, component_size),
      )
      (refl, (refl, (refl, (refl, tt)))) (omega arith) (omega (arith, component_size))

-- a request of the client 5, between two of the client 6
Others-Apart_example :
    Apart 6 idle (handle_szl small_server ℕ_discrete idle component_request 0 5).1
Others-Apart_example =
    Others-Apart small_server ℕ_discrete (next here (omega arith) (szl idle component_request 0))

-- the address of some octets of the block
abbrev octets_at : ℕ → ℕ → Bytes
octets_at start count = 0x12 ∷ 0x0a ∷ 0x10 ∷ 2 ∷ 0 ∷ count ∷ 0 ∷ 1 ∷ 0x84 ∷ 0 ∷ 0 ∷ start * 8 ∷ []

abbrev two_specs : List AddressSpec
two_specs =
    record { area = 0x84; db_number = 1; start = 1; count = 3; word_len = 2 }
    ∷ record { area = 0x84; db_number = 1; start = 4; count = 2; word_len = 2 }
    ∷ []

abbrev two_ranges : List MemoryRange
two_ranges =
    record { db_number = 1; start = 1; count = 3 }
    ∷ record { db_number = 1; start = 4; count = 2 }
    ∷ []

-- the second range ends behind the block
abbrev read_call : Request Call
read_call = record { parsed = (3, 4 ∷ 2 ∷ (octets_at 1 3 ++ octets_at 4 2), []); raw_data = [] }

-- the first counts its octets, and the second its bits
abbrev two_items : List Item
two_items = (9, 1 ∷ 2 ∷ 3 ∷ []) ∷ (4, 4 ∷ 5 ∷ []) ∷ []

abbrev write_call : Request Call
write_call = record {
  parsed = (3, 5 ∷ 2 ∷ (octets_at 1 3 ++ octets_at 4 2), []);
  raw_data = 0 ∷ 9 ∷ 0 ∷ 3 ∷ 1 ∷ 2 ∷ 3 ∷ 0 ∷ 0 ∷ 4 ∷ 0 ∷ 16 ∷ 4 ∷ 5 ∷ [];
}

write_call_specs : multi_specs small_server write_call.parsed ≡ ok (map some two_specs)
unfolding multi_specs specs_from parse_address_specification direct is_counting item_at
write_call_specs = refl

write_call_count : item_at (5 ∷ 2 ∷ (octets_at 1 3 ++ octets_at 4 2)) 1 ≡ ok 2
unfolding item_at
write_call_count = refl

write_call_data : write_call.raw_data ≡ encoded two_items
unfolding encoded
write_call_data = refl

handle_write_area-decode_multi_example :
    (pdu : Bytes) × (handle_write_area small_server block write_call
      ≡ (ok pdu, (written small_server refl block two_specs two_items).1))
    × (decode_multi pdu 3 true two_ranges
        ≡ ok (
            map
              (λ code. item_result code none)
              (written small_server refl block two_specs two_items).0))
handle_write_area-decode_multi_example =
    handle_write_area-decode_multi small_server refl block write_call two_specs two_items two_ranges
      refl (omega arith) write_call_count write_call_specs (omega arith) (omega arith)
      write_call_data refl refl

-- the start of the upload of the block 1, and one request for a chunk
abbrev start_call : Call
start_call = (
  4,
  0x1d ∷ 0 ∷ 0 ∷ 0 ∷ 0 ∷ 0 ∷ 0 ∷ 0 ∷ 9 ∷ 0x5f ∷ 0x30 ∷ 0x41 ∷ 0x30 ∷ 0x30 ∷ 0x30 ∷ 0x30 ∷ 0x31
      ∷ 0x41 ∷ [],
  [],
)

start_call_number : int (slice 12 17 (start_call.1)) ≡ ok (pos 1)
unfolding int strip_left is_space signed_integer integer_of digits is_digit
start_call_number = refl

upload-conversation_example :
    (answer : Bytes) × (t : State Bytes ℕ) × (header : Bytes) × (pdus : List Bytes)
    × (handle_start_upload small_server ℕ_discrete idle start_call 5 ≡ (ok answer, t))
    × ((upload_run small_server refl (omega arith) ℕ_discrete t 5 (component_request ∷ [])).0
        ≡ map ok pdus)
    × (receive (labelled small_server refl (omega arith) ℕ_discrete (component_request ∷ []) pdus)
        ≡ ok (header ++ block))
    × (length header ≡ 36)
unfolding idle
upload-conversation_example =
    upload-conversation small_server refl (omega arith) (omega arith) ℕ_discrete idle start_call 5 1
      block component_request [] (omega arith) refl refl start_call_number refl (omega arith)
      (omega arith) (omega arith) (omega arith) (omega arith)
