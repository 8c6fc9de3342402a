-- ===== src/Emulator/Server.antt =====
-- What `MultiItemServer` of integration/run.py takes from python-snap7, and the state it adds.
use mathlib.Core.Logic.{ite}
use lean_s.Prelude.{
  ℕ, Bool, ltb, if◌then◌else◌, Option, none, some, List, ◌++◌, take, drop, length, ◌+◌, ◌/◌, ◌%◌,
}
use lean_s.Error.{Result, ok, err, struct_error, ◌>>=◌}
use lean_s.Bytes.{Bytes, pack_word}
use lean_s.Value.Integer.{ℤ, pos, negsuc}

-- the dict that `_parse_address_specification` returns where it is not empty
pub record AddressSpec : Type 0 where
  pub area : ℕ
  pub db_number : ℕ
  pub start : ℕ
  pub count : ℕ
  pub word_len : ℕ

-- The classes and constants of python-snap7: its parsers, its memory, the handlers and replies of
-- its `Server`. `Parsed` and `Params` are its dicts for a request and for USERDATA parameters,
-- `Memory` is the state of its server.
pub record Snap7 : Type 1 where
  pub Parsed : Type 0
  pub Params : Type 0
  pub Memory : Type 0
  pub ack_data : ℕ
  pub userdata : ℕ
  pub read_area : ℕ
  pub write_area : ℕ
  pub start_upload : ℕ
  pub upload : ℕ
  pub timer : ℕ
  pub counter : ℕ
  pub word_length : ℕ
  pub dword : ℕ
  pub real : ℕ
  pub parse : Bytes → Result Parsed
  pub sequence : Parsed → ℕ
  pub raw_parameters : Parsed → Bytes
  -- request.get("data", {}).get("data", b"")
  pub content : Parsed → Bytes
  -- userdata_params.get("sequence", 0)
  pub params_sequence : Params → ℕ
  -- `none` is the empty dict
  pub parse_address : Bytes → Result (Option AddressSpec)
  pub read_memory : Memory → ℕ → ℕ → ℕ → ℕ → Option Bytes
  pub write_memory : Memory → ℕ → ℕ → ℕ → Bytes → Bool × Memory
  -- memory_areas.get((S7Area.DB, number))
  pub db_block : Memory → ℤ → Option Bytes
  pub cpu_state : Memory → ℕ
  -- the parent's handlers of one item, on the request with its `raw_data`
  pub handle_read : Memory → Parsed → Bytes → Result Bytes × Memory
  pub handle_write : Memory → Parsed → Bytes → Result Bytes × Memory
  pub success_response : Parsed → Params → Bytes → Result Bytes
  pub userdata_error : Parsed → ℕ → Result Bytes
  pub error_response : Parsed → ℕ → Result Bytes

-- a request with the key `raw_data` that `_parse_request` adds
pub record Request (Parsed : Type 0) : Type 0 where
  pub parsed : Parsed
  pub raw_data : Bytes

pub record UploadContext : Type 0 where
  pub payload : Bytes
  pub offset : ℕ

-- The state of the server; the dicts map client addresses.
pub record State (Memory Client : Type 0) : Type 0 where
  pub memory : Memory
  pub szl_fragments : Client → Option (List Bytes)
  pub block_fragments : Client → Option (List Bytes)
  pub uploads : Client → Option UploadContext

-- a server that no client has asked yet
unfoldable pub initial : {Memory Client : Type 0} → Memory → State Memory Client
initial memory = record {
  memory = memory;
  szl_fragments = λ c. none;
  block_fragments = λ c. none;
  uploads = λ c. none;
}

module _ {Client V : Type 0} (same : Discrete Client) where
  -- table[client] = value
  unfoldable pub store : Client → V → (Client → Option V) → Client → Option V
  store client value table c = ite (same c client) (some value) (table c)

  -- table.pop(client, None)
  unfoldable pub discard : Client → (Client → Option V) → Client → Option V
  discard client table c = ite (same c client) none (table c)

-- struct.pack(">B", n)
unfoldable pub pack_byte : ℕ → Result ℕ
pack_byte n = if ltb n 256 then ok n else err struct_error

-- struct.pack(">I", n) below 2 ^ 32
unfoldable pub pack_long : ℕ → Result Bytes
pack_long n = do high ← pack_word (n / 65536); low ← pack_word (n % 65536); ok (high ++ low)

-- struct.pack(">H", n) of an integer
unfoldable pub pack_word_of : ℤ → Result Bytes
pack_word_of (pos n) = pack_word n
pack_word_of (negsuc n) = err struct_error

-- target[i : i + len(new)] = new, and struct.pack_into
unfoldable pub put_at : ℕ → Bytes → Bytes → Bytes
put_at i new target = take i target ++ (new ++ drop (i + length new) target)
