-- ===== src/Conversation/History.antt =====
-- The body of `trace`: the lifecycle of a connection, the writes in flight and their history.
pub mod Laws
use lean_s.Prelude.{
  ℕ, Bool, true, false, not, ◌&&◌, ◌||◌, Option, none, some, List, [], ◌∷◌, ◌++◌, ltb, ◌==◌,
  if◌then◌else◌, length,
}
use lean_s.Bytes.{Bytes}
use lean_s.Conversation.Types.{
  MemoryRange, Location, Lifecycle, connected, disconnected, closed, ErrorKind, Outcome,
  replayed_unknown, Attempt, settle, settle_codes, retryable,
}

pub data LifecycleEvent : Type 0 where
  disconnect transport_closed reconnected : LifecycleEvent

pub data Safety : Type 0 where
  read_only potentially_mutating : Safety

-- An event whose shape, ranges and wire bytes have been checked. A `send` keeps what the encoder
-- gave for its locations.
pub data Event : Type 0 where
  on_lifecycle : LifecycleEvent → Event
  retry : Safety → Bool → ErrorKind → ℕ → Event
  send : ℕ → List Location → Option Bytes → Event
  acknowledge : ℕ → ℕ → Bytes → Event
  read : MemoryRange → Bytes → Event

pub data Category : Type 0 where
  lifecycle_transition not_connected request_codec write_progress response_codec write_pending :
      Category

-- accepted(), accepted(permitted=…), accepted(payload=…) and rejected(…)
pub data Answer : Type 0 where
  accepted : Answer
  permitted : Bool → Answer
  content : Bytes → Answer
  rejected : Category → Answer

pub record State : Type 0 where
  pub state : Lifecycle
  pub history : List Attempt
  pub in_flight : List Location
  pub in_flight_reference : Option ℕ

abbrev pub initial : State
initial = record { state = connected; history = []; in_flight = []; in_flight_reference = none }

unfoldable pub is_connected : Lifecycle → Bool
is_connected connected = true
is_connected _ = false

unfoldable pub is_closed : Lifecycle → Bool
is_closed closed = true
is_closed _ = false

unfoldable pub is_mutating : Safety → Bool
is_mutating potentially_mutating = true
is_mutating read_only = false

unfoldable pub lifecycle_step : State → LifecycleEvent → Lifecycle → State × Answer
lifecycle_step s disconnect old = (record s { state = closed }, accepted)
lifecycle_step s transport_closed closed = (s, accepted)
lifecycle_step s transport_closed old = (record s { state = disconnected }, accepted)
lifecycle_step s reconnected disconnected = (record s { state = connected }, accepted)
lifecycle_step s reconnected old = (s, rejected lifecycle_transition)

unfoldable pub retry_permitted : State → Safety → Bool → ErrorKind → ℕ → Bool
unfolding is_closed is_mutating retryable
retry_permitted s safety allow kind remaining =
    not (is_closed s.state)
    && ltb 0 remaining
    && retryable kind
    && (not (is_mutating safety) || allow)

unfoldable pub retry_step : State → Safety → Bool → ErrorKind → ℕ → State × Answer
unfolding retry_permitted is_mutating
retry_step s safety allow kind remaining =
    let ok_to_retry = retry_permitted s safety allow kind remaining in
    if ok_to_retry && is_mutating safety
    then (
      record s {
        history = s.history ++ settle replayed_unknown s.in_flight;
        in_flight = [];
        in_flight_reference = none;
      },
      permitted ok_to_retry,
    )
    else (s, permitted ok_to_retry)

unfoldable pub send_step : State → ℕ → List Location → Option Bytes → State × Answer
unfolding is_connected
send_step s reference locations encoded =
    if not (is_connected s.state) then (s, rejected not_connected) else elim encoded [
      | none ↦ (s, rejected request_codec)
      | some pdu ↦
          if not (length s.in_flight == 0)
          then (s, rejected write_progress)
          else (record s { in_flight = locations; in_flight_reference = some reference }, accepted)
    ]

-- pending_reference is not None and reference != pending_reference
unfoldable pub other_reference : Option ℕ → ℕ → Bool
other_reference none reference = false
other_reference (some expected) reference = not (reference == expected)

unfoldable pub acknowledge_step : State → ℕ → ℕ → Bytes → State × Answer
unfolding is_connected other_reference
acknowledge_step s reference count codes =
    if not (is_connected s.state)
    then (s, rejected not_connected)
    else if other_reference s.in_flight_reference reference
        || not (count == length s.in_flight)
        || not (length codes == length s.in_flight)
    then (s, rejected response_codec)
    else (
      record s {
        history = s.history ++ settle_codes s.in_flight codes;
        in_flight = [];
        in_flight_reference = none;
      },
      accepted,
    )

unfoldable pub read_step : State → MemoryRange → Bytes → State × Answer
unfolding is_connected
read_step s item payload =
    if not (is_connected s.state)
    then (s, rejected not_connected)
    else if not (length s.in_flight == 0)
    then (s, rejected write_pending)
    else if item.count == 0
    then (s, rejected request_codec)
    else if not (length payload == item.count)
    then (s, rejected response_codec)
    else (s, content payload)

-- What an event does once it has been checked.
unfoldable pub step : State → Event → State × Answer
unfolding lifecycle_step retry_step send_step acknowledge_step read_step
step s (on_lifecycle event) = lifecycle_step s event s.state
step s (retry safety allow kind remaining) = retry_step s safety allow kind remaining
step s (send reference locations encoded) = send_step s reference locations encoded
step s (acknowledge reference count codes) = acknowledge_step s reference count codes
step s (read item payload) = read_step s item payload

-- `attempts` of a snapshot: the history, then what is still in flight
unfoldable pub attempts : State → List Attempt
attempts s = s.history ++ settle Outcome.pending s.in_flight
