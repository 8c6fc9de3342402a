-- ===== src/Conversation/Trace.antt =====
-- `trace`: the checks on each event of a case, the step that it makes and the snapshot behind it.
use text.Mathlib.Text.{◌==◌ as str_eq}
use lean_s.Prelude.{
  ◌*◌, Bool, true, false, Option, none, some, List, [], ◌∷◌, ◌++◌, String, ltb, if◌then◌else◌,
  length, map,
}
use lean_s.Error.{Result, ok, err, value_error, type_error, ◌>>=◌, ◌>>◌, raise_if}
use lean_s.Bytes.{pack_word}
use lean_s.Json
use lean_s.Json.{
  Json, Items, Fields, string, array, object, nil, cons, shape, find, get, integer, octets, bool,
}
use lean_s.Conversation.Types.{
  Lifecycle, ErrorKind, invalid_input, protocol, plc_rejected, timeout, dropped, transport, other,
  Attempt,
}
use lean_s.Conversation.Wire.{packet, request}
use lean_s.Conversation.Input.{memory_range, locations, wire}
use lean_s.Conversation.History.{
  LifecycleEvent, disconnect, transport_closed, reconnected, Safety, read_only,
  potentially_mutating, Event, on_lifecycle, retry, send, acknowledge, read, Answer, State, initial,
  step, attempts,
}

-- a comparison of a value with a text
unfoldable pub is : Json → String → Bool
is (string s) k = str_eq s k
is Json.null k = false
is _ k = false

unfoldable pub lifecycle_event : Json → Result LifecycleEvent
lifecycle_event name =
    if is name "disconnect"
    then ok disconnect
    else if is name "transport-closed"
    then ok transport_closed
    else if is name "reconnected"
    then ok reconnected
    else err value_error

unfoldable pub safety : Json → Result Safety
safety name =
    if is name "read-only"
    then ok read_only
    else if is name "potentially-mutating"
    then ok potentially_mutating
    else err value_error

unfoldable pub error_kind : Json → Result ErrorKind
error_kind name =
    if is name "invalid-input"
    then ok invalid_input
    else if is name "protocol"
    then ok protocol
    else if is name "plc-rejected"
    then ok plc_rejected
    else if is name "timeout"
    then ok timeout
    else if is name "disconnected"
    then ok dropped
    else if is name "lifecycle"
    then ok ErrorKind.lifecycle
    else if is name "transport"
    then ok transport
    else if is name "other"
    then ok other
    else err value_error

unfoldable pub parse_lifecycle : Json → Result Event
parse_lifecycle event = do
  m ← shape event ("operation" ∷ "event" ∷ [])
  name ← get m "event"
  e ← lifecycle_event name
  ok (on_lifecycle e)

unfoldable pub parse_retry : Json → Result Event
parse_retry event = do
  m ←
      shape event
        ("operation" ∷ "safety" ∷ "allow_potentially_mutating" ∷ "error_kind" ∷ "remaining" ∷ [])
  policy ← get m "safety"
  permission ← get m "allow_potentially_mutating"
  name ← get m "error_kind"
  s ← safety policy
  allow ← bool permission
  kind ← error_kind name
  left ← get m "remaining"
  remaining ← integer left 0xffff_ffff
  ok (retry s allow kind remaining)

-- the items of a list that is no longer than 20
unfoldable pub location_items : Json → Result Items
location_items (array xs) = if ltb 20 (Json.items_length xs) then err value_error else ok xs
location_items Json.null = err value_error
location_items _ = err value_error

unfoldable pub parse_send : Json → Result Event
parse_send event = do
  m ← shape event ("operation" ∷ "reference" ∷ "locations" ∷ "request_pdu" ∷ [])
  number ← get m "reference"
  reference ← integer number 65535
  values ← get m "locations"
  items ← location_items values
  places ← locations items
  encoded ← request reference (map (λ l. l.range) places) true
  stated ← get m "request_pdu"
  wire stated encoded
  ok (send reference places encoded)

unfoldable pub parse_acknowledge : Json → Result Event
parse_acknowledge event = do
  m ← shape event ("operation" ∷ "reference" ∷ "count" ∷ "codes" ∷ "response_pdu" ∷ [])
  number ← get m "reference"
  reference ← integer number 65535
  size ← get m "count"
  count ← integer size 255
  values ← get m "codes"
  codes ← octets values
  stated ← get m "response_pdu"
  expected ← packet 3 reference (5 ∷ count ∷ []) codes
  wire stated (some expected)
  ok (acknowledge reference count codes)

unfoldable pub parse_read : Json → Result Event
parse_read event = do
  m ←
      shape event
        ("operation" ∷ "reference" ∷ "range" ∷ "payload" ∷ "request_pdu" ∷ "response_pdu" ∷ [])
  number ← get m "reference"
  reference ← integer number 65535
  inner ← get m "range"
  item ← memory_range inner
  values ← get m "payload"
  content ← octets values
  stated ← get m "request_pdu"
  expected ← request reference (item ∷ []) false
  wire stated expected
  raise_if (ltb 65535 (length content * 8)) value_error
  answered ← get m "response_pdu"
  size ← pack_word (length content * 8)
  reply ← packet 3 reference (4 ∷ 1 ∷ []) (0xff ∷ 4 ∷ (size ++ content))
  wire answered (some reply)
  ok (read item content)

-- the chain of tests on event.get("operation")
unfoldable pub parse_operation : Json → Option Json → Result Event
parse_operation event none = err value_error
parse_operation event (some operation) =
    if is operation "lifecycle"
    then parse_lifecycle event
    else if is operation "retry"
    then parse_retry event
    else if is operation "send"
    then parse_send event
    else if is operation "acknowledge"
    then parse_acknowledge event
    else if is operation "read"
    then parse_read event
    else err value_error

unfoldable pub parse_event : Json → Result Event
parse_event (object m) = parse_operation (object m) (find "operation" m)
parse_event Json.null = err type_error
parse_event _ = err type_error

-- one entry of the result: the answer, and the snapshot
pub record Snapshot : Type 0 where
  pub answer : Answer
  pub lifecycle : Lifecycle
  pub attempts : List Attempt

unfoldable pub snapshot : State × Answer → Snapshot
snapshot (s, answer) = record { answer = answer; lifecycle = s.state; attempts = attempts s }

unfoldable pub run : State → Items → Result (List Snapshot)
run s nil = ok []
run s (cons event events) = do
  e ← parse_event event
  rest ← run (step s e).0 events
  ok (snapshot (step s e) ∷ rest)

unfoldable pub trace : Json → Result (List Snapshot)
trace (array events) =
    if ltb 1024 (Json.items_length events) then err value_error else run initial events
trace Json.null = err value_error
trace _ = err value_error
