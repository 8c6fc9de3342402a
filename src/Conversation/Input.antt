-- ===== src/Conversation/Input.antt =====
-- The validation of ranges, locations and wire bytes: `memory_range`, `location` and `wire`.
use lean_s.Prelude.{ℕ, not, Option, none, some, List, [], ◌∷◌}
use lean_s.Error.{Result, ok, err, value_error, ◌>>=◌, raise_if}
use lean_s.Bytes.{Bytes, equal}
use lean_s.Json.{Json, Items, null, nil, cons, shape, get, integer, octets}
use lean_s.Conversation.Types.{MemoryRange, Location}

unfoldable pub memory_range : Json → Result MemoryRange
memory_range value = do
  m ← shape value ("db_number" ∷ "start" ∷ "count" ∷ [])
  db ← get m "db_number"
  db_number ← integer db 65535
  first ← get m "start"
  start ← integer first 0x1fffff
  size ← get m "count"
  count ← integer size 65535
  ok (record { db_number = db_number; start = start; count = count })

-- `if value is not None: integer(value)`
unfoldable pub optional_integer : Json → Result (Option ℕ)
optional_integer null = ok none
optional_integer value = do n ← integer value 0xffff_ffff; ok (some n)

unfoldable pub location : Json → Result Location
location value = do
  m ← shape value ("range" ∷ "item_index" ∷ "chunk_byte_offset" ∷ [])
  inner ← get m "range"
  range ← memory_range inner
  position ← get m "item_index"
  item_index ← optional_integer position
  chunk ← get m "chunk_byte_offset"
  chunk_byte_offset ← integer chunk 0xffff_ffff
  ok (record { range = range; item_index = item_index; chunk_byte_offset = chunk_byte_offset })

-- [location(value) for value in values]
unfoldable pub locations : Items → Result (List Location)
locations nil = ok []
locations (cons x xs) = do first ← location x; rest ← locations xs; ok (first ∷ rest)

-- The bytes that a case states for a PDU, against those that the encoder gives.
unfoldable pub wire : Json → Option Bytes → Result (Unit {0})
wire null none = ok tt
wire value none = err value_error
wire null (some expected) = err value_error
wire value (some expected) = do
  bytes ← octets value
  raise_if (not (equal bytes expected)) value_error
