-- ===== src/Json.antt =====
-- The values that `json.loads` returns, and the checks of integration/conversation_conformance.py
-- on them: `shape`, `integer`, `octets`. A float keeps its literal text: no check reads its value.
pub mod Laws
use text.Mathlib.Text.{◌==◌ as str_eq}
use lean_s.Prelude.{
  ℕ, suc, Bool, true, false, ◌&&◌, ◌||◌, Option, none, some, List, [], ◌∷◌, String, leb, ltb,
  if◌then◌else◌, not,
}
use lean_s.Error.{Result, ok, err, value_error, key_error, ◌>>=◌}
use lean_s.Bytes.{Bytes}

-- A Python `int` and a `bool` are two types; `int` is unbounded.
mutual
  pub data Json : Type 0 where
    null : Json
    boolean : Bool → Json
    natural : ℕ → Json
    negative : ℕ → Json
    float : String → Json
    string : String → Json
    array : Items → Json
    object : Fields → Json

  pub data Items : Type 0 where
    nil : Items
    cons : Json → Items → Items

  pub data Fields : Type 0 where
    end : Fields
    field : String → Json → Fields → Fields

abbrev pub items_length : Items → ℕ
items_length nil = 0
items_length (cons x xs) = suc (items_length xs)

abbrev pub find : String → Fields → Option Json
find k end = none
find k (field j v m) = if str_eq j k then some v else find k m

-- value[key]
abbrev pub get : Fields → String → Result Json
get m k = elim (find k m) [ none ↦ err key_error | some v ↦ ok v ]

abbrev pub listed : String → List String → Bool
listed k [] = false
listed k (j ∷ js) = str_eq j k || listed k js

abbrev pub keys_listed : Fields → List String → Bool
keys_listed end keys = true
keys_listed (field k v m) keys = listed k keys && keys_listed m keys

abbrev pub has_key : Fields → String → Bool
has_key end k = false
has_key (field j v m) k = str_eq j k || has_key m k

abbrev pub has_keys : Fields → List String → Bool
has_keys m [] = true
has_keys m (k ∷ ks) = has_key m k && has_keys m ks

-- A value that is a dict whose keys are the given ones, and no others; the dict comes back.
unfoldable pub shape : Json → List String → Result Fields
shape (object m) keys = if keys_listed m keys && has_keys m keys then ok m else err value_error
shape null keys = err value_error
shape _ keys = err value_error

-- `type(value) is int`, and in the range 0 to `maximum`
unfoldable pub integer : Json → ℕ → Result ℕ
integer (natural n) maximum = if leb n maximum then ok n else err value_error
integer null maximum = err value_error
integer _ maximum = err value_error

unfoldable pub octet_list : Items → Result Bytes
octet_list nil = ok []
octet_list (cons x xs) = do b ← integer x 255; bs ← octet_list xs; ok (b ∷ bs)

unfoldable pub octets : Json → Result Bytes
octets (array xs) = if ltb 65535 (items_length xs) then err value_error else octet_list xs
octets null = err value_error
octets _ = err value_error

-- `type(value) is bool`
unfoldable pub bool : Json → Result Bool
bool (boolean b) = ok b
bool null = err value_error
bool _ = err value_error
