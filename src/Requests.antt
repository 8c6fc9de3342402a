-- ===== src/Requests.antt =====
-- The request checks of three socket peers: `_check` of integration/retry_budgets.py, `_operation` of
-- integration/reconnect_faults.py and `_check` of integration/mixed_operations.py.
pub mod Exact
pub mod Positions
use lean_s.Prelude.{
  ℕ, zero, suc, ◌+◌, ◌*◌, ◌%◌, Bool, true, false, not, ◌&&◌, ◌||◌, List, [], ◌∷◌, ◌++◌, ltb, ◌==◌,
  if◌then◌else◌, length, take, drop, slice,
}
use lean_s.Error.{Result, ok, value_error, runtime_error, ◌>>=◌, ◌>>◌, raise_if}
use lean_s.Bytes.{Bytes, equal, pack_word, to_bytes_3, from_bytes}
use lean_s.Reconnect.{Mode, read, raw, write, multi}

-- The reference of a request that is the expected one in everything else.
unfoldable pub correlated : Bytes → Bytes → Result ℕ
correlated request expected = do
  raise_if
      (not (equal (take 4 request) (take 4 expected))
        || not (equal (drop 6 request) (drop 6 expected)))
      runtime_error
  ok (from_bytes (slice 4 6 request))

-- the request with reference 0 of a job
unfoldable pub job : Bytes → Bytes → Result Bytes
job parameters content = do
  parameter_size ← pack_word (length parameters)
  data_size ← pack_word (length content)
  ok (0x32 ∷ 1 ∷ 0 ∷ 0 ∷ 0 ∷ 0 ∷ (parameter_size ++ (data_size ++ (parameters ++ content))))

-- 5 if write else 4
unfoldable pub function_code : Bool → ℕ
function_code writing = if writing then 5 else 4

-- `_check` of the retry budgets
unfoldable pub check_retry : Bytes → Bool → Result ℕ
check_retry request writing = do
  expected ←
      job
        (function_code writing
          ∷ 1
          ∷ 0x12
          ∷ 0x0a
          ∷ 0x10
          ∷ 0x02
          ∷ 0
          ∷ 0x01
          ∷ 0
          ∷ 0x01
          ∷ 0x84
          ∷ 0
          ∷ 0
          ∷ 0
          ∷ [])
        (if writing then 0 ∷ 0x04 ∷ 0 ∷ 0x08 ∷ 0x2a ∷ [] else [])
  correlated request expected

-- mode in ("write", "multi")
unfoldable pub writes : Mode → Bool
writes read = false
writes raw = false
writes write = true
writes multi = true

unfoldable pub items : Mode → ℕ
items read = 1
items raw = 1
items write = 1
items multi = 2

-- The loop of `_operation` over so many items, from an index on: the parameters and the data.
unfoldable pub operation_items : Bool → ℕ → ℕ → ℕ → Result (Bytes × Bytes)
operation_items writing width zero index = ok ([], [])
operation_items writing width (suc n) index = do
  address ← to_bytes_3 (index * 32)
  raise_if (writing && ltb 255 (42 + index)) value_error
  rest ← operation_items writing width n (index + 1)
  ok (
    0x12 ∷ 0x0a ∷ 0x10 ∷ 0x02 ∷ 0 ∷ 1 ∷ 0 ∷ 1 ∷ 0x84 ∷ (address ++ rest.0),
    if writing
        then 0
          ∷ 0x04
          ∷ 0
          ∷ 0x08
          ∷ (42 + index)
          ∷ ((if ltb (index + 1) width then 0 ∷ [] else []) ++ rest.1)
        else rest.1,
  )

unfoldable pub check_operation : Bytes → Mode → Result ℕ
check_operation request mode = do
  sections ← operation_items (writes mode) (items mode) (items mode) 0
  expected ← job (function_code (writes mode) ∷ items mode ∷ sections.0) sections.1
  correlated request expected

-- The operations of a mixed plan that come with a request: a read, a write, a read of two items, a
-- retried read, a write of two items, a rejected write, a malformed answer, and a dropped write.
pub data Op : Type 0 where
  read_op write_op read_two_op retried_op write_two_op rejected_op malformed_op dropped_op : Op

unfoldable pub is_write : Op → Bool
is_write read_op = false
is_write write_op = true
is_write read_two_op = false
is_write retried_op = false
is_write write_two_op = true
is_write rejected_op = true
is_write malformed_op = false
is_write dropped_op = true

unfoldable pub spec : ℕ → Result Bytes
spec start = do
  address ← to_bytes_3 (start * 8)
  ok (0x12 ∷ 0x0a ∷ 0x10 ∷ 0x02 ∷ 0 ∷ 0x01 ∷ 0 ∷ 0x01 ∷ 0x84 ∷ address)

-- the address of the second item
unfoldable pub second_spec : Op → ℕ → Result Bytes
second_spec read_two_op start = spec (start + 1)
second_spec write_two_op start = spec start
second_spec op start = ok []

unfoldable pub item_count : Op → ℕ
item_count read_two_op = 2
item_count write_two_op = 2
item_count op = 1

unfoldable pub written_data : Op → ℕ → Bytes
written_data write_two_op value =
    0 ∷ 0x04 ∷ 0 ∷ 0x08 ∷ value ∷ 0 ∷ 0 ∷ 0x04 ∷ 0 ∷ 0x08 ∷ (value + 1) % 256 ∷ []
written_data op value = if is_write op then 0 ∷ 0x04 ∷ 0 ∷ 0x08 ∷ value ∷ [] else []

-- the request that is expected of an operation at its position in the plan
unfoldable pub mixed_job : Op → ℕ → Result Bytes
mixed_job op index = do
  first ← spec (10 + index)
  second ← second_spec op (10 + index)
  job (function_code (is_write op) ∷ item_count op ∷ (first ++ second))
      (written_data op ((index * 17 + 3) % 256))

-- `_check` of the mixed operations, with the reference that `_serve` reads behind it
unfoldable pub check_mixed : Bytes → Op → ℕ → Result ℕ
check_mixed request op index = do expected ← mixed_job op index; correlated request expected
