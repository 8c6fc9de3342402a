-- ===== src/Value/Octets.antt =====
-- `octets` of integration/value_conformance.py: bytes given as literal and repeated chunks.
use lean_s.Prelude.{Bool, ◌&&◌, List, [], ◌∷◌, ◌++◌, String, ltb, if◌then◌else◌, length, replicate}
use lean_s.Error.{Result, ok, err, value_error, type_error, ◌>>=◌, ◌>>◌, raise_if}
use lean_s.Bytes.{Bytes}
use lean_s.Json.{
  Json, Items, Fields, null, array, object, nil, cons, get, integer, octet_list, shape, keys_listed,
  has_keys,
}

-- set(m) == keys
unfoldable pub has_exactly : Fields → List String → Bool
has_exactly m keys = keys_listed m keys && has_keys m keys

-- a list of integers from 0 to 255
unfoldable pub literal : Json → Result Bytes
literal (array xs) = octet_list xs
literal null = err value_error
literal _ = err value_error

unfoldable pub repeated : Json → Result Bytes
repeated value = do
  m ← shape value ("byte" ∷ "count" ∷ [])
  octet ← get m "byte"
  times ← get m "count"
  byte ← integer octet 255
  count ← integer times 1_000_000
  ok (replicate count byte)

unfoldable pub chunk : Json → Result Bytes
chunk (object m) =
    if has_exactly m ("bytes" ∷ [])
    then (do values ← get m "bytes"; literal values)
    else if has_exactly m ("repeat" ∷ [])
    then (do value ← get m "repeat"; repeated value)
    else err value_error
chunk null = err type_error
chunk _ = err type_error

-- the loop over the chunks, on the bytes so far
unfoldable pub chunks : Bytes → Items → Result Bytes
chunks result nil = ok result
chunks result (cons x xs) = do
  more ← chunk x
  raise_if (ltb 1_000_000 (length (result ++ more))) value_error
  chunks (result ++ more) xs

unfoldable pub chunk_list : Json → Result Items
chunk_list (array xs) = ok xs
chunk_list null = err value_error
chunk_list _ = err value_error

unfoldable pub octets : Json → Result Bytes
octets spec = do
  m ← shape spec ("chunks" ∷ [])
  value ← get m "chunks"
  xs ← chunk_list value
  chunks [] xs
