-- ===== src/Session/Trace.antt =====
-- `trace` of integration/session_conformance.py: the checks on each event, its step, the snapshot.
use lean_s.Prelude.{ℕ, ◌||◌, Option, none, some, List, [], ◌∷◌, ◌++◌, ltb, ◌==◌, if◌then◌else◌}
use lean_s.Error.{Result, ok, err, value_error, type_error, ◌>>=◌}
use lean_s.Json
use lean_s.Json.{Json, Items, object, array, nil, cons, shape, find, get, octets}
use lean_s.Conversation.Types.{Lifecycle, Outcome, Attempt, settle}
use lean_s.Conversation.Trace.{is, error_kind}
use lean_s.Session.Config.{Config, configuration}
use lean_s.Session.Machine.{
  Phase, Event, begin, send, setup_reached, reconnected, disconnect, failure, receive, Answer,
  State, initial, step,
}

unfoldable pub parse_failure : Json → Result Event
parse_failure event = do
  m ← shape event ("operation" ∷ "error_kind" ∷ [])
  name ← get m "error_kind"
  kind ← error_kind name
  ok (failure kind)

unfoldable pub parse_response : Json → Result Event
parse_response event = do
  m ← shape event ("operation" ∷ "response_pdu" ∷ [])
  value ← get m "response_pdu"
  pdu ← octets value
  ok (receive pdu)

-- an event with no field but its operation
unfoldable pub parse_plain : Json → Event → Result Event
parse_plain event e = do m ← shape event ("operation" ∷ []); ok e

unfoldable pub parse_operation : Json → Option Json → Result Event
parse_operation event none = err value_error
parse_operation event (some operation) =
    if is operation "failure"
    then parse_failure event
    else if is operation "response"
    then parse_response event
    else if is operation "begin"
    then parse_plain event begin
    else if is operation "send"
    then parse_plain event send
    else if is operation "reconnect-setup"
    then parse_plain event setup_reached
    else if is operation "reconnected"
    then parse_plain event reconnected
    else if is operation "disconnect"
    then parse_plain event disconnect
    else err value_error

unfoldable pub parse_event : Json → Result Event
parse_event (object m) = parse_operation (object m) (find "operation" m)
parse_event Json.null = err type_error
parse_event _ = err type_error

pub record Snapshot : Type 0 where
  pub answer : Answer
  pub lifecycle : Lifecycle
  pub remaining : ℕ
  pub active_reference : Option ℕ
  pub phase : Phase
  pub sends : ℕ
  pub attempts : List Attempt

unfoldable pub attempts : State → List Attempt
attempts s = s.history ++ settle Outcome.pending s.in_flight

unfoldable pub snapshot : State × Answer → Snapshot
snapshot (s, answer) = record {
  answer = answer;
  lifecycle = s.lifecycle;
  remaining = s.remaining;
  active_reference = s.active;
  phase = s.phase;
  sends = s.sends;
  attempts = attempts s;
}

unfoldable pub run : Config → State → Items → Result (List Snapshot)
run config s nil = ok []
run config s (cons event events) = do
  e ← parse_event event
  next ← step config s e
  rest ← run config next.0 events
  ok (snapshot next ∷ rest)

unfoldable pub event_items : Json → Result Items
event_items (array xs) =
    if Json.items_length xs == 0 || ltb 1024 (Json.items_length xs) then err value_error else ok xs
event_items Json.null = err value_error
event_items _ = err value_error

unfoldable pub trace : Json → Json → Result (List Snapshot)
trace config events = do c ← configuration config; items ← event_items events; run c initial items
