-- ===== src/Emulator/Szl.antt =====
-- The system status lists and the list of blocks that `MultiItemServer` in integration/run.py
-- answers in fragments.
use Prim.Native.Char.{code}
use Prim.Native.Nat.{bit_or}
use Prim.Native.String.{String}
use lean_s.Prelude.{
  ℕ, zero, suc, ◌+◌, ◌-◌, Bool, true, false, not, ◌&&◌, Option, none, some, List, [], ◌∷◌, ◌++◌,
  ltb, ◌==◌, if◌then◌else◌, length, take, drop, replicate,
}
use lean_s.Error.{
  Result, ok, err, struct_error, index_error, assertion_error, ◌>>=◌, ◌>>◌, raise_if,
}
use lean_s.Bytes.{Bytes, equal, word, word_at, pack_word}
use lean_s.Emulator.Server.{Snap7, State, store, discard, pack_byte, pack_long}

-- an ASCII literal
abbrev pub ascii : String → Bytes
ascii String.[] = []
ascii (String.◌∷◌ c s) = code c ∷ ascii s

-- value[:n].ljust(n, b"\x00")
unfoldable pub justified : ℕ → Bytes → Bytes
justified n value = take n value ++ replicate (n - length (take n value)) 0

unfoldable pub all_long : ℕ → List Bytes → Bool
all_long n [] = true
all_long n (r ∷ records) = length r == n && all_long n records

unfoldable pub concat : List Bytes → Bytes
concat [] = []
concat (r ∷ records) = r ++ concat records

unfoldable pub szl_record : ℕ → List Bytes → Result Bytes
szl_record record_length records = do
  raise_if (not (all_long record_length records)) assertion_error
  size ← pack_word record_length
  count ← pack_word (length records)
  ok (size ++ (count ++ concat records))

-- the component names, numbered from an index on
unfoldable pub components : ℕ → List Bytes → List Bytes
components index [] = []
components index (value ∷ values) =
    (word (index + 1) ++ justified 32 value) ∷ components (index + 1) values

unfoldable pub component_names : List Bytes
component_names =
    ascii "SNAP7-SERVER"
    ∷ ascii "CPU 315-2 PN/DP"
    ∷ ascii "unused"
    ∷ ascii "Original Siemens Equipment"
    ∷ ascii "S C-C2UR28922012"
    ∷ ascii "CPU 315-2 PN/DP"
    ∷ []

unfoldable pub list_of_lists : List Bytes
list_of_lists =
    word 0x0000
    ∷ word 0x0011
    ∷ word 0x001c
    ∷ word 0x0025
    ∷ word 0x0131
    ∷ word 0x0232
    ∷ word 0x0424
    ∷ []

-- the list, where the server has it
unfoldable pub found : Result Bytes → Result (Option Bytes)
found answer = do content ← answer; ok (some content)

unfoldable pub communication : Result Bytes
communication = do
  rate ← pack_long 12_000_000
  limit ← pack_long 100_000_000
  szl_record 14 ((word 1 ++ (word 480 ++ (word 32 ++ (rate ++ limit)))) ∷ [])

unfoldable pub cpu_status : ℕ → Result Bytes
cpu_status status = do
  raise_if (not (ltb status 256)) struct_error
  szl_record 4 ((0 ∷ 0 ∷ 0 ∷ status ∷ []) ∷ [])

unfoldable pub get_szl_data : ℕ → ℕ → ℕ → Result (Option Bytes)
get_szl_data cpu_state szl_id szl_index =
    if szl_id == 0x0000
    then found (szl_record 2 list_of_lists)
    else if szl_id == 0x0011
    then found (
        szl_record 26
          ((word 1 ++ (justified 20 (ascii "6ES7 315-2EH14-0AB0") ++ (0 ∷ 3 ∷ 3 ∷ 0 ∷ []))) ∷ []))
    else if szl_id == 0x001c
    then found (szl_record 34 (components 0 component_names))
    else if szl_id == 0x0131 && szl_index == 1
    then found communication
    else if szl_id == 0x0232 && szl_index == 4
    then found
        (szl_record 12 ((word 4 ++ (word 1 ++ (word 0 ++ (word 0 ++ (word 2 ++ word 0))))) ∷ []))
    else if szl_id == 0x0424
    then found (cpu_status cpu_state)
    else if szl_id == 0x0025
    then found (
        szl_record 8 (
          (word 0x81 ++ (word 12 ++ (3 ∷ 1 ∷ word 0)))
          ∷ (word 0x82 ++ (word 20 ++ (7 ∷ 0 ∷ word 0)))
          ∷ []))
    else ok none

-- [complete[i : i + 48] for i in range(0, len(complete), 48)]; as many steps as there are octets
-- are enough.
unfoldable pub chunks : ℕ → Bytes → List Bytes
chunks zero complete = []
chunks (suc fuel) [] = []
chunks (suc fuel) (b ∷ rest) = take 48 (b ∷ rest) ∷ chunks fuel (drop 48 (b ∷ rest))

-- bool(fragments)
unfoldable pub is_some : List Bytes → Bool
is_some [] = false
is_some (f ∷ fragments) = true

module _ (server : Snap7) where
  open server use {
    Parsed, Params, Memory, userdata, sequence, content, params_sequence, cpu_state, userdata_error,
  }

  unfoldable pub userdata_fragment_response : Parsed → ℕ → Bool → Bytes → ℕ → ℕ → Result Bytes
  userdata_fragment_response request number has_more payload group subfunction = do
    service ← pack_byte (bit_or 0x80 group)
    function ← pack_byte subfunction
    count ← pack_byte number
    let parameters : Bytes =
        0
        ∷ 1
        ∷ 0x12
        ∷ 8
        ∷ 0x12
        ∷ service
        ∷ function
        ∷ count
        ∷ 1
        ∷ (if has_more then 1 else 0)
        ∷ 0
        ∷ 0
        ∷ []
    size ← pack_word (length payload)
    let fragment : Bytes = 0xff ∷ 9 ∷ (size ++ payload)
    kind ← pack_byte userdata
    reference ← pack_word (sequence request)
    data_size ← pack_word (length fragment)
    ok (0x32 ∷ kind ∷ 0 ∷ 0 ∷ (reference ++ (0 ∷ 12 ∷ (data_size ++ (parameters ++ fragment)))))

  module _ {Client : Type 0} (same : Discrete Client) where
    -- `table`, where `client` keeps the fragments that are left
    unfoldable pub keep :
        Client → List Bytes → (Client → Option (List Bytes)) → Client → Option (List Bytes)
    keep client [] table = discard same client table
    keep client (f ∷ fragments) table = store same client (f ∷ fragments) table

    -- The answer to a request for the next fragment, and the table behind it.
    unfoldable pub next_fragment :
        Parsed
        → ℕ
        → ℕ
        → ℕ
        → Client
        → Option (List Bytes)
        → (Client → Option (List Bytes))
        → Result Bytes × (Client → Option (List Bytes))
    next_fragment request number group subfunction client (some (payload ∷ fragments)) table = (
      userdata_fragment_response request number (is_some fragments) payload group subfunction,
      keep client fragments table,
    )
    next_fragment request number group subfunction client none table =
        (userdata_error request 0x8104, table)
    next_fragment request number group subfunction client _ table =
        (userdata_error request 0x8104, table)

    -- The first fragment; the others are kept for the client.
    unfoldable pub first_fragment :
        Parsed
        → Client
        → List Bytes
        → (Client → Option (List Bytes))
        → Result Bytes × (Client → Option (List Bytes))
    first_fragment request client [] table = (err index_error, table)
    first_fragment request client (first ∷ []) table =
        (userdata_fragment_response request 1 false first 4 1, table)
    first_fragment request client (first ∷ second ∷ rest) table = (
      userdata_fragment_response request 1 true first 4 1,
      store same client (second ∷ rest) table,
    )

    unfoldable pub open_list :
        Parsed
        → Client
        → ℕ
        → ℕ
        → Result (Option Bytes)
        → (Client → Option (List Bytes))
        → Result Bytes × (Client → Option (List Bytes))
    open_list request client szl_id szl_index (err raised) table = (err raised, table)
    open_list request client szl_id szl_index (ok none) table =
        (userdata_error request 0x8104, table)
    open_list request client szl_id szl_index (ok (some szl_data)) table =
        let complete = word szl_id ++ (word szl_index ++ szl_data) in
        first_fragment request client (chunks (length complete) complete) table

    unfoldable pub handle_szl :
        State Memory Client → Parsed → Params → Client → Result Bytes × State Memory Client
    handle_szl s request params client =
        let raw = content request in
        let next =
          next_fragment request (params_sequence params) 4 1 client (s.szl_fragments client)
            s.szl_fragments in
        let opened =
          open_list request client (word_at raw 0) (word_at raw 2)
            (get_szl_data (cpu_state s.memory) (word_at raw 0) (word_at raw 2)) s.szl_fragments in
        let (answer, table) =
          (if not (params_sequence params == 0)
            then next
            else if ltb (length raw) 4
            then (userdata_error request 0x8104, s.szl_fragments)
            else opened) in
        (answer, record s { szl_fragments = table })

    unfoldable pub handle_list_blocks_of_type :
        State Memory Client → Parsed → Params → Client → Result Bytes × State Memory Client
    handle_list_blocks_of_type s request params client =
        let next =
          next_fragment request (params_sequence params) 3 2 client (s.block_fragments client)
            s.block_fragments in
        let opened : Result Bytes × (Client → Option (List Bytes)) = (
          userdata_fragment_response request 1 true (0 ∷ 1 ∷ []) 3 2,
          store same client ((0 ∷ 0 ∷ []) ∷ []) s.block_fragments,
        ) in
        let (answer, table) =
          (if not (params_sequence params == 0)
            then next
            else if not (equal (content request) (0x30 ∷ 0x41 ∷ []))
            then (userdata_error request 0x8104, s.block_fragments)
            else opened) in
        (answer, record s { block_fragments = table })
