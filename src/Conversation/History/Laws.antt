-- ===== src/Conversation/History/Laws.antt =====
-- What the events of a history keep: no location is lost or made up, no settled outcome changes,
-- and a closed connection stays as it is.
use mathlib.Core.List.{map-append}
use mathlib.Core.Path.{ap₂}
use lean_s.Prelude.{
  ℕ, ◌≡◌, refl, sym, ap, ◌∙◌, not, ◌&&◌, ◌||◌, ◌==◌, Bool, true, false, Bool-cases, inl, inr,
  Option, none, some, List, [], ◌∷◌, ◌++◌, arith, append-nil, length, map,
}
use lean_s.Bytes.{Bytes}
use lean_s.Conversation.Types.{
  MemoryRange, Location, Attempt, Lifecycle, connected, disconnected, closed, ErrorKind, Outcome,
  replayed_unknown, settle, settle_codes,
}
use lean_s.Conversation.History.{
  LifecycleEvent, disconnect, transport_closed, reconnected, Safety, Event, on_lifecycle, retry,
  send, acknowledge, read, Answer, accepted, permitted, rejected, lifecycle_transition,
  not_connected, State, step, lifecycle_step, retry_step, retry_permitted, is_mutating, send_step,
  acknowledge_step, read_step, is_connected, other_reference,
}

pub place : Attempt → Location
place a = a.location

location_settle : (o : Outcome) (ls : List Location) → map place (settle o ls) ≡ ls
unfolding settle place
location_settle o [] = refl
location_settle o (l ∷ ls) = ap (◌∷◌ l) (location_settle o ls)

location_settle_codes :
    (ls : List Location) (codes : Bytes)
    → length codes ≡ length ls
    → map place (settle_codes ls codes) ≡ ls
unfolding settle_codes place
location_settle_codes [] [] h = refl
location_settle_codes [] (c ∷ codes) h = refl
location_settle_codes (l ∷ ls) [] h = absurd (omega arith)
location_settle_codes (l ∷ ls) (c ∷ codes) h =
    ap (◌∷◌ l) (location_settle_codes ls codes (omega arith))

-- the locations that a snapshot shows
abbrev pub places : State → List Location
places s = map place s.history ++ s.in_flight

-- what an event with this answer adds to them
abbrev pub added : Event → Answer → List Location
added (send reference locations encoded) accepted = locations
added (send reference locations encoded) _ = []
added _ answer = []

-- All in flight moves to the history.
places-settled :
    (s : State) (settled : List Attempt) (reference : Option ℕ)
    → map place settled ≡ s.in_flight
    → places (record s {
      history = s.history ++ settled;
      in_flight = [];
      in_flight_reference = reference;
    })
      ≡ places s
places-settled s settled reference e =
    append-nil _ ∙ map-append place s.history settled ∙ ap (λ xs. map place s.history ++ xs) e

-- What an operation makes of the places and the history of a state.
record Keeps (s : State) (new : List Location) (next : State) : Type 0 where
  all_places : places next ≡ places s ++ new
  more : List Attempt
  extends : next.history ≡ s.history ++ more

same : (s next : State) → next.history ≡ s.history → next.in_flight ≡ s.in_flight → Keeps s [] next
same s next h f = record {
  all_places = ap₂ (λ xs ys. map place xs ++ ys) h f ∙ sym (append-nil (places s));
  more = [];
  extends = h ∙ sym (append-nil s.history);
}

moved :
    (s : State) (settled : List Attempt)
    → map place settled ≡ s.in_flight
    → Keeps s []
        (record s { history = s.history ++ settled; in_flight = []; in_flight_reference = none })
moved s settled e = record {
  all_places = places-settled s settled none e ∙ sym (append-nil (places s));
  more = settled;
  extends = refl;
}

lifecycle-Keeps :
    (s : State) (e : LifecycleEvent) (old : Lifecycle) → Keeps s [] (lifecycle_step s e old).0
unfolding lifecycle_step
lifecycle-Keeps s disconnect connected = same s _ refl refl
lifecycle-Keeps s disconnect old = same s _ refl refl
lifecycle-Keeps s transport_closed closed = same s _ refl refl
lifecycle-Keeps s transport_closed old = same s _ refl refl
lifecycle-Keeps s reconnected disconnected = same s _ refl refl
lifecycle-Keeps s reconnected old = same s _ refl refl

retry-Keeps :
    (s : State) (safety : Safety) (allow : Bool) (kind : ErrorKind) (remaining : ℕ)
    → Keeps s [] (retry_step s safety allow kind remaining).0
unfolding retry_step
retry-Keeps s safety allow kind remaining =
    elim (Bool-cases (retry_permitted s safety allow kind remaining && is_mutating safety)) [
      | inl replay ↦ rw replay (moved s _ (location_settle replayed_unknown s.in_flight))
      | inr idle ↦ rw idle (same s s refl refl)
    ]

no_elements {ℓ} : {A : Type ℓ} (xs : List A) → length xs == 0 ≡ true → xs ≡ []
no_elements [] h = refl
no_elements (x ∷ xs) h = ground arith

sent-Keeps :
    (s : State) (locations : List Location) (reference : ℕ)
    → s.in_flight ≡ []
    → Keeps s locations (record s { in_flight = locations; in_flight_reference = some reference })
sent-Keeps s locations reference none_left = record {
  all_places =
      ap (λ xs. xs ++ locations)
        (sym (append-nil (map place s.history))
          ∙ ap (λ xs. map place s.history ++ xs) (sym none_left));
  more = [];
  extends = sym (append-nil s.history);
}

send-Keeps :
    (s : State) (reference : ℕ) (locations : List Location) (encoded : Option Bytes)
    → let r = send_step s reference locations encoded in
      Keeps s (added (send reference locations encoded) r.1) r.0
unfolding send_step
send-Keeps s reference locations none = elim (Bool-cases (not (is_connected s.state))) [
  | inl down ↦ rw down (same s s refl refl)
  | inr up ↦ rw up (same s s refl refl)
]
send-Keeps s reference locations (some pdu) = elim (Bool-cases (not (is_connected s.state))) [
  | inl down ↦ rw down (same s s refl refl)
  | inr up ↦ rw up (elim (Bool-cases (not (length s.in_flight == 0))) [
    | inl busy ↦ rw busy (same s s refl refl)
    | inr free ↦ rw free (sent-Keeps s locations reference (no_elements s.in_flight (ground arith)))
  ])
]

acknowledge-Keeps :
    (s : State) (reference count : ℕ) (codes : Bytes)
    → Keeps s [] (acknowledge_step s reference count codes).0
unfolding acknowledge_step
acknowledge-Keeps s reference count codes = elim (Bool-cases (not (is_connected s.state))) [
  | inl down ↦ rw down (same s s refl refl)
  | inr up ↦
      rw up
        (elim (Bool-cases (
          other_reference s.in_flight_reference reference
          || not (count == length s.in_flight)
          || not (length codes == length s.in_flight))) [
            | inl bad ↦ rw bad (same s s refl refl)
            | inr fine ↦
                rw fine (moved s _ (location_settle_codes s.in_flight codes (ground arith)))
          ])
]

read-Keeps : (s : State) (item : MemoryRange) (payload : Bytes) → (read_step s item payload).0 ≡ s
unfolding read_step
read-Keeps s item payload = ground arith

-- The places that a snapshot shows after an event are those before it, in their order, and behind
-- them the locations of an accepted send; and what was settled before the event stays as it was,
-- at the front of the history.
pub step-keeps :
    (s : State) (e : Event)
    → (places (step s e).0 ≡ places s ++ added e (step s e).1)
      × ((more : List Attempt) × ((step s e).0.history ≡ s.history ++ more))
unfolding step
step-keeps s (on_lifecycle event) =
    let k = lifecycle-Keeps s event s.state in (k.all_places, (k.more, k.extends))
step-keeps s (retry safety allow kind remaining) =
    let k = retry-Keeps s safety allow kind remaining in (k.all_places, (k.more, k.extends))
step-keeps s (send reference locations encoded) =
    let k = send-Keeps s reference locations encoded in (k.all_places, (k.more, k.extends))
step-keeps s (acknowledge reference count codes) =
    let k = acknowledge-Keeps s reference count codes in (k.all_places, (k.more, k.extends))
step-keeps s (read item payload) =
    let e = read-Keeps s item payload in
    let k =
      same s (read_step s item payload).0 (ap (λ (t : State). t.history) e)
        (ap (λ (t : State). t.in_flight) e) in
    (k.all_places, (k.more, k.extends))

-- No event changes the state of a closed connection, and none but a lifecycle event or a refused
-- retry is accepted there.
abbrev pub RefusedWhenClosed : Event → Answer → Type 0
RefusedWhenClosed (on_lifecycle reconnected) answer = answer ≡ rejected lifecycle_transition
RefusedWhenClosed (on_lifecycle event) answer = answer ≡ accepted
RefusedWhenClosed (retry safety allow kind remaining) answer = answer ≡ permitted false
RefusedWhenClosed _ answer = answer ≡ rejected not_connected

pub step_closed :
    (s : State) (e : Event)
    → s.state ≡ closed
    → ((step s e).0 ≡ s) × RefusedWhenClosed e (step s e).1
unfolding step
step_closed s (on_lifecycle disconnect) h = ground arith
step_closed s (on_lifecycle event) h = ground arith
step_closed s _ h = ground arith
