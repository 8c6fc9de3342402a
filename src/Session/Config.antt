-- ===== src/Session/Config.antt =====
-- `configuration` of integration/session_conformance.py: the request that a case is about.
use lean_s.Prelude.{
  ℕ, Bool, not, ◌||◌, Option, none, some, List, ◌==◌, [], ◌∷◌, ltb, if◌then◌else◌, map,
}
use lean_s.Error.{Result, ok, err, value_error, ◌>>=◌, ◌>>◌, raise_if}
use lean_s.Json
use lean_s.Json.{Json, Items, array, shape, get, integer, bool}
use lean_s.Conversation.Types.{Location}
use lean_s.Conversation.Wire.{request}
use lean_s.Conversation.Input.{locations, wire}
use lean_s.Conversation.Trace.{is}

-- The fields that the oracle reads once they are checked. `safety` is `write` in other words.
pub record Config : Type 0 where
  pub write : Bool
  pub allow : Bool
  pub budget : ℕ
  pub reference : ℕ
  pub locations : List Location

-- the items of a list of 1 to 20
unfoldable pub location_items : Json → Result Items
location_items (array xs) =
    if Json.items_length xs == 0 || ltb 20 (Json.items_length xs) then err value_error else ok xs
location_items Json.null = err value_error
location_items _ = err value_error

-- A request that cannot be encoded is no configuration.
unfoldable pub encoded_request : Json → Option (List ℕ) → Result (Unit {0})
encoded_request stated none = err value_error
encoded_request stated (some pdu) = wire stated (some pdu)

unfoldable pub configuration : Json → Result Config
configuration value = do
  m ← shape value (
      "write" ∷ "safety" ∷ "allow_potentially_mutating" ∷ "budget" ∷ "reference" ∷ "locations"
      ∷ "request_pdu" ∷ [])
  direction ← get m "write"
  write ← bool direction
  permission ← get m "allow_potentially_mutating"
  allow ← bool permission
  policy ← get m "safety"
  raise_if (not (is policy (if write then "potentially-mutating" else "read-only"))) value_error
  attempts ← get m "budget"
  budget ← integer attempts 16
  number ← get m "reference"
  reference ← integer number 65535
  values ← get m "locations"
  items ← location_items values
  places ← locations items
  encoded ← request reference (map (λ l. l.range) places) write
  stated ← get m "request_pdu"
  encoded_request stated encoded
  ok (record {
    write = write;
    allow = allow;
    budget = budget;
    reference = reference;
    locations = places;
  })
