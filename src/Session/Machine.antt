-- ===== src/Session/Machine.antt =====
-- The body of `trace` of integration/session_conformance.py: one request, its retries, reconnects
-- and replies.
pub mod Sound
pub mod Bounds
pub mod Accounts
use lean_s.Prelude.{
  ℕ, ◌+◌, ◌-◌, Bool, true, false, not, ◌&&◌, ◌||◌, Option, none, some, List, [], ◌∷◌, ◌++◌, ltb,
  ◌==◌, if◌then◌else◌, length,
}
use lean_s.Error.{Result, ok, err, value_error, ◌>>=◌}
use lean_s.Bytes.{Bytes}
use lean_s.Conversation.Types.{
  Location, Lifecycle, connected, disconnected, ErrorKind, plc_rejected, Outcome, replayed_unknown,
  global_rejected, Attempt, settle, retryable,
}
use lean_s.Conversation.History.{is_connected, is_closed}
use lean_s.Session.Config.{Config}
use lean_s.Session.Response.{Reply, refused, answered, response}

pub data Phase : Type 0 where
  idle ready awaiting reconnect_cotp reconnect_setup failed completed closed : Phase

pub data Event : Type 0 where
  begin send setup_reached reconnected disconnect : Event
  failure : ErrorKind → Event
  receive : Bytes → Event

pub data Category : Type 0 where
  not_connected already_active send_phase write_progress failure_phase : Category
  reconnect_phase response_phase response_codec : Category

-- accepted(), accepted(retry=…), rejected(…)
pub data Answer : Type 0 where
  accepted : Answer
  retry : Bool → Answer
  rejected : Category → Answer

pub record State : Type 0 where
  pub lifecycle : Lifecycle
  pub phase : Phase
  pub remaining : ℕ
  pub sends : ℕ
  pub active : Option ℕ
  pub history : List Attempt
  pub in_flight : List Location

abbrev pub initial : State
initial = record {
  lifecycle = connected;
  phase = idle;
  remaining = 0;
  sends = 0;
  active = none;
  history = [];
  in_flight = [];
}

unfoldable pub is_some {ℓ} : {A : Type ℓ} → Option A → Bool
is_some none = false
is_some (some a) = true

unfoldable pub is_ready : Phase → Bool
is_ready ready = true
is_ready _ = false

unfoldable pub is_awaiting : Phase → Bool
is_awaiting awaiting = true
is_awaiting _ = false

unfoldable pub is_reconnect_cotp : Phase → Bool
is_reconnect_cotp reconnect_cotp = true
is_reconnect_cotp _ = false

unfoldable pub is_reconnect_setup : Phase → Bool
is_reconnect_setup reconnect_setup = true
is_reconnect_setup _ = false

unfoldable pub is_plc_rejected : ErrorKind → Bool
is_plc_rejected plc_rejected = true
is_plc_rejected _ = false

-- `finish` with one outcome for every pending location
unfoldable pub finish : Outcome → State → State
finish outcome s = record s { history = s.history ++ settle outcome s.in_flight; in_flight = [] }

-- zip(pending, outcomes, strict=True)
unfoldable pub settle_each : List Location → List Outcome → Result (List Attempt)
settle_each [] [] = ok []
settle_each [] (o ∷ os) = err value_error
settle_each (l ∷ ls) [] = err value_error
settle_each (l ∷ ls) (o ∷ os) = do
  rest ← settle_each ls os
  ok (record { location = l; outcome = o } ∷ rest)

-- `finish` with a list of outcomes
unfoldable pub finish_each : List Outcome → State → Result State
finish_each outcomes s = do
  settled ← settle_each s.in_flight outcomes
  ok (record s { history = s.history ++ settled; in_flight = [] })

unfoldable pub permitted : Config → State → ErrorKind → Bool
unfolding is_closed retryable
permitted config s kind =
    not (is_closed s.lifecycle)
    && ltb 0 s.remaining
    && retryable kind
    && (not config.write || config.allow)

unfoldable pub fail : Config → ErrorKind → State → State
unfolding permitted finish is_awaiting is_plc_rejected
fail config kind s =
    if permitted config s kind
    then (let t = if config.write && is_awaiting s.phase then finish replayed_unknown s else s in
        record t { remaining = s.remaining - 1; lifecycle = disconnected; phase = reconnect_cotp })
    else (let t =
          if config.write && is_plc_rejected kind && is_awaiting s.phase
          then finish global_rejected s
          else s in
        record t { lifecycle = disconnected; phase = failed; active = none })

unfoldable pub begin_step : Config → State → State × Answer
unfolding is_connected is_some
begin_step config s =
    if not (is_connected s.lifecycle)
    then (s, rejected not_connected)
    else if is_some s.active
    then (s, rejected already_active)
    else (
      record s {
        remaining = config.budget;
        active = some config.reference;
        phase = ready;
        sends = 0;
        history = [];
        in_flight = [];
      },
      accepted,
    )

unfoldable pub send_step : Config → State → State × Answer
unfolding is_connected is_some is_ready
send_step config s =
    if not (is_connected s.lifecycle) || not (is_some s.active) || not (is_ready s.phase)
    then (s, rejected send_phase)
    else if config.write && not (length s.in_flight == 0)
    then (s, rejected write_progress)
    else (
      record s {
        in_flight = if config.write then config.locations else s.in_flight;
        sends = s.sends + 1;
        phase = awaiting;
      },
      accepted,
    )

-- phase in ("awaiting", "reconnect-cotp", "reconnect-setup")
unfoldable pub may_fail : Phase → Bool
unfolding is_awaiting is_reconnect_cotp is_reconnect_setup
may_fail phase = is_awaiting phase || is_reconnect_cotp phase || is_reconnect_setup phase

unfoldable pub failure_step : Config → ErrorKind → State → State × Answer
unfolding is_some may_fail fail
failure_step config kind s =
    if is_some s.active && may_fail s.phase
    then (fail config kind s, retry (permitted config s kind))
    else (s, rejected failure_phase)

unfoldable pub setup_step : State → State × Answer
unfolding is_some is_reconnect_cotp
setup_step s =
    if not (is_some s.active) || not (is_reconnect_cotp s.phase)
    then (s, rejected reconnect_phase)
    else (record s { phase = reconnect_setup }, accepted)

unfoldable pub is_disconnected : Lifecycle → Bool
is_disconnected disconnected = true
is_disconnected _ = false

unfoldable pub reconnected_step : State → State × Answer
unfolding is_some is_reconnect_setup is_disconnected
reconnected_step s =
    if not (is_some s.active)
      || not (is_reconnect_setup s.phase)
      || not (is_disconnected s.lifecycle)
    then (s, rejected reconnect_phase)
    else (record s { lifecycle = connected; phase = ready }, accepted)

unfoldable pub reply_step : Config → State → Reply → Result (State × Answer)
unfolding fail
reply_step config s (refused kind) = ok (fail config kind s, rejected response_codec)
reply_step config s (answered results) = do
  t ← (if config.write then finish_each results s else ok s)
  ok (record t { active = none; phase = completed }, accepted)

unfoldable pub receive_step : Config → Bytes → State → Result (State × Answer)
unfolding is_connected is_some is_awaiting reply_step
receive_step config pdu s =
    if not (is_connected s.lifecycle) || not (is_some s.active) || not (is_awaiting s.phase)
    then ok (s, rejected response_phase)
    else reply_step config s (response config pdu)

-- What an event does once it has been checked; only a reply could raise.
unfoldable pub step : Config → State → Event → Result (State × Answer)
unfolding begin_step send_step failure_step setup_step reconnected_step receive_step
step config s begin = ok (begin_step config s)
step config s send = ok (send_step config s)
step config s (failure kind) = ok (failure_step config kind s)
step config s setup_reached = ok (setup_step s)
step config s reconnected = ok (reconnected_step s)
step config s (receive pdu) = receive_step config pdu s
step config s disconnect =
    ok (record s { lifecycle = Lifecycle.closed; active = none; phase = Phase.closed }, accepted)
