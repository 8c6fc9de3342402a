-- ===== src/Tests/Histories.antt =====
-- The histories of conversations, sessions and writes in progress, at concrete events.
use lean_s.Prelude.{
  ℕ, ◌+◌, ◌≡◌, refl, true, false, none, some, List, [], ◌∷◌, ◌++◌, ◌≤◌, arith, length, map, String,
}
use lean_s.Error.{ok}
use lean_s.Bytes.{Bytes}
use lean_s.Json.{
  Json, Items, boolean, natural, string, array, object, nil, cons, field, end, shape, integer,
  octets, octet_list, bool,
}
use lean_s.Conversation.{
  MemoryRange, Location, address, addresses, packet, payload, write_data, valid_range, valid_ranges,
  request,
}
use lean_s.Conversation.Types
use lean_s.Conversation.Types.{Attempt, connected, disconnected, closed, pending, success}
use lean_s.Conversation.Input.{memory_range, optional_integer, location, locations, wire}
use lean_s.Conversation.Trace.{is, error_kind}
use lean_s.Conversation.History
use lean_s.Conversation.History.Laws.{places, added, RefusedWhenClosed, step-keeps, step_closed}
use lean_s.Session.Config.{Config, configuration, location_items, encoded_request}
use lean_s.Session.Response.{response}
use lean_s.Session.Machine
use lean_s.Session.Machine.Sound.{IsSound, step-IsSound}
use lean_s.Session.Machine.Bounds.{All, parse_events, sends_since, trace-sends-le, trace-one_send}
use lean_s.Session.Machine.Accounts.{Shown, trace-attempts}
use lean_s.Session.Trace
use lean_s.Session.Trace.{
  Snapshot, parse_event, parse_operation, parse_plain, parse_failure, run, snapshot, event_items,
  trace,
}
use lean_s.Operation.Progress
use lean_s.Operation.Progress.{
  decode_progress, progress_steps, progress_step, settle, settle_results, status_outcome, summary,
}
use lean_s.Operation.Progress.Laws.{place, sent, decode_progress-attempts}

abbrev byte_range : MemoryRange
byte_range = record { db_number = 1; start = 0; count = 1 }

abbrev byte_location : Location
byte_location = record { range = byte_range; item_index = some 0; chunk_byte_offset = 0 }

abbrev write_pdu : Bytes
write_pdu =
    0x32 ∷ 1 ∷ 0 ∷ 0 ∷ 0 ∷ 7 ∷ 0 ∷ 14 ∷ 0 ∷ 5 ∷ 5 ∷ 1 ∷ 0x12 ∷ 0x0a ∷ 0x10 ∷ 2 ∷ 0 ∷ 1 ∷ 0 ∷ 1
    ∷ 0x84 ∷ 0 ∷ 0 ∷ 0 ∷ 0 ∷ 4 ∷ 0 ∷ 8 ∷ 0 ∷ []

abbrev items_of : Bytes → Items
items_of [] = nil
items_of (b ∷ bs) = cons (natural b) (items_of bs)

abbrev range_json : Json
range_json =
    object
      (field "db_number" (natural 1) (field "start" (natural 0) (field "count" (natural 1) end)))

abbrev location_json : Json
location_json = object (
    field "range" range_json
      (field "item_index" (natural 0) (field "chunk_byte_offset" (natural 0) end)))

abbrev config_json : Json
config_json = object (
    field "write" (boolean true) (
      field "safety" (string "potentially-mutating") (
        field "allow_potentially_mutating" (boolean false) (
          field "budget" (natural 2) (
            field "reference" (natural 7) (
              field "locations" (array (cons location_json nil))
                (field "request_pdu" (array (items_of write_pdu)) end)))))))

abbrev one_write : Config
one_write = record {
  write = true;
  allow = false;
  budget = 2;
  reference = 7;
  locations = byte_location ∷ [];
}

config_accepted : configuration config_json ≡ ok one_write
unfolding configuration shape bool is integer location_items locations location memory_range
    optional_integer request addresses address packet payload write_data valid_range valid_ranges
    encoded_request wire octets octet_list
config_accepted = refl

abbrev plain : String → Json
plain name = object (field "operation" (string name) end)

abbrev timeout : Json
timeout = object (field "operation" (string "failure") (field "error_kind" (string "timeout") end))

abbrev event_list : Items
event_list =
    cons (plain "begin") (cons (plain "send") (cons timeout (cons (plain "disconnect") nil)))

abbrev parsed : List Machine.Event
parsed =
    Machine.Event.begin
    ∷ Machine.Event.send
    ∷ Machine.Event.failure lean_s.Conversation.Types.ErrorKind.timeout
    ∷ Machine.Event.disconnect
    ∷ []

events_parsed : parse_events event_list ≡ ok parsed
unfolding parse_events parse_event parse_operation parse_plain parse_failure shape is error_kind
events_parsed = refl

events_listed : event_items (array event_list) ≡ ok event_list
unfolding event_items
events_listed = refl

trace-sends-le_example :
    (snaps : List Snapshot) × (trace config_json (array event_list) ≡ ok snaps)
    × All (λ snap. snap.sends ≤ 3) snaps
trace-sends-le_example =
    trace-sends-le config_json (array event_list) one_write event_list parsed config_accepted
      events_listed events_parsed

abbrev in_doubt : List Attempt
in_doubt = record { location = byte_location; outcome = pending } ∷ []

abbrev snapshots : List Snapshot
snapshots =
    record {
      answer = Machine.Answer.accepted;
      lifecycle = connected;
      remaining = 2;
      active_reference = some 7;
      phase = Machine.Phase.ready;
      sends = 0;
      attempts = [];
    }
    ∷ record {
      answer = Machine.Answer.accepted;
      lifecycle = connected;
      remaining = 2;
      active_reference = some 7;
      phase = Machine.Phase.awaiting;
      sends = 1;
      attempts = in_doubt;
    }
    ∷ record {
      answer = Machine.Answer.retry false;
      lifecycle = disconnected;
      remaining = 2;
      active_reference = none;
      phase = Machine.Phase.failed;
      sends = 1;
      attempts = in_doubt;
    }
    ∷ record {
      answer = Machine.Answer.accepted;
      lifecycle = closed;
      remaining = 2;
      active_reference = none;
      phase = Machine.Phase.closed;
      sends = 1;
      attempts = in_doubt;
    }
    ∷ []

traced : trace config_json (array event_list) ≡ ok snapshots
unfolding trace run snapshot Trace.attempts Machine.step Types.settle event_items configuration
    shape bool is integer location_items locations location memory_range optional_integer request
    addresses address packet payload write_data valid_range valid_ranges encoded_request wire octets
    octet_list parse_event parse_operation parse_plain parse_failure error_kind
traced = refl

trace-one_send_example :
    (snaps : List Snapshot) × (trace config_json (array event_list) ≡ ok snaps)
    × All (λ n. n ≤ 1) (sends_since 0 parsed snaps)
trace-one_send_example =
    trace-one_send config_json (array event_list) one_write event_list parsed config_accepted
      events_listed events_parsed refl refl

trace-attempts_example :
    (snaps : List Snapshot) × (trace config_json (array event_list) ≡ ok snaps)
    × All (Shown one_write) snaps
trace-attempts_example =
    trace-attempts config_json (array event_list) one_write event_list parsed config_accepted
      events_listed events_parsed

abbrev awaiting : Machine.State
awaiting = record {
  lifecycle = connected;
  phase = Machine.Phase.awaiting;
  remaining = 2;
  sends = 1;
  active = some 7;
  history = [];
  in_flight = byte_location ∷ [];
}

abbrev success_pdu : Bytes
success_pdu = 0x32 ∷ 3 ∷ 0 ∷ 0 ∷ 0 ∷ 7 ∷ 0 ∷ 2 ∷ 0 ∷ 1 ∷ 0 ∷ 0 ∷ 5 ∷ 1 ∷ 255 ∷ []

abbrev completed : Machine.State
completed = record awaiting {
  phase = Machine.Phase.completed;
  active = none;
  history = record { location = byte_location; outcome = success } ∷ [];
  in_flight = [];
}

received :
    Machine.step one_write awaiting (Machine.Event.receive success_pdu)
    ≡ ok (completed, Machine.Answer.accepted)
unfolding Machine.step Machine.finish_each Machine.settle_each response Types.code_outcome
received = refl

step-IsSound_example :
    (next : Machine.State × Machine.Answer) × (Machine.step one_write awaiting
        (Machine.Event.receive success_pdu)
      ≡ ok next)
    × IsSound one_write next.0
step-IsSound_example =
    step-IsSound one_write awaiting (Machine.Event.receive success_pdu)
      (refl, refl, omega arith, refl)

abbrev before_send : History.State
before_send = record History.initial {
  history = record { location = byte_location; outcome = success } ∷ [];
}

abbrev sending : History.Event
sending = History.Event.send 7 (byte_location ∷ []) (some write_pdu)

step-keeps_example :
    (places (History.step before_send sending).0
      ≡ places before_send ++ added sending (History.step before_send sending).1)
    × ((more : List Attempt) × ((History.step before_send sending).0.history
          ≡ before_send.history ++ more))
step-keeps_example = step-keeps before_send sending

abbrev closed_state : History.State
closed_state = record before_send { state = closed }

step_closed_example :
    ((History.step closed_state sending).0 ≡ closed_state)
    × RefusedWhenClosed sending (History.step closed_state sending).1
step_closed_example = step_closed closed_state sending refl

abbrev write_events : List (Progress.Event ℕ)
write_events =
    Progress.Event.send (10 ∷ 20 ∷ [])
    ∷ Progress.Event.acknowledge (Progress.ItemStatus.success ∷ Progress.ItemStatus.failed 5 ∷ [])
    ∷ Progress.Event.send (30 ∷ [])
    ∷ []

abbrev write_summary : Progress.Summary ℕ
write_summary = record {
  attempts =
      record { location = 10; outcome = Progress.Outcome.succeeded }
      ∷ record { location = 20; outcome = Progress.Outcome.failure 5 }
      ∷ record { location = 30; outcome = Progress.Outcome.pending }
      ∷ [];
  acknowledged_count = 2;
  rejected_count = 0;
  replayed_uncertain_count = 0;
  uncertain_count = 1;
}

summarised : decode_progress write_events ≡ some write_summary
unfolding decode_progress progress_steps progress_step settle settle_results status_outcome summary
summarised = refl

decode_progress-attempts_example :
    (map place write_summary.attempts ≡ sent write_events)
    × (2 + 0 + 0 + 1 ≡ length write_summary.attempts)
decode_progress-attempts_example = decode_progress-attempts write_events write_summary summarised
