-- ===== src/Session/Machine/Sound.antt =====
-- The invariant of a session: what each phase says of the lifecycle, the active request, the
-- retries left and the writes in flight.
use lean_s.Prelude.{
  ℕ, suc, ◌+◌, ◌≤◌, ◌≡◌, refl, sym, ap, ◌∙◌, not, ◌||◌, inl, inr, ◌++◌, Bool-cases, true, Option,
  none, some, List, [], ◌∷◌, arith, length, length-map, drop, if◌then◌else◌,
}
use lean_s.Error.{ok}
use lean_s.Bytes.{Bytes, word_at}
use lean_s.Conversation.Types.{
  Location, Attempt, Lifecycle, connected, disconnected, ErrorKind, Outcome, code_outcome,
}
use lean_s.Conversation.History.{is_connected}
use lean_s.Session.Config.{Config}
use lean_s.Session.Response.{Reply, refused, answered, response, read_reply, check_items}
use lean_s.Session.Machine.{
  Phase, idle, ready, awaiting, reconnect_cotp, reconnect_setup, failed, completed, Event, begin,
  send, setup_reached, reconnected, disconnect, failure, receive, accepted, rejected,
  response_codec, response_phase, Answer, State, step, begin_step, send_step, failure_step,
  setup_step, reconnected_step, receive_step, reply_step, fail, settle_each, finish_each, is_some,
  is_awaiting,
}

-- what a request in flight has pending
abbrev pub pending_of : Config → List Location
pending_of config = if config.write then config.locations else []

abbrev pub InPhase : Config → State → Phase → Type 0
InPhase c s idle = (s.active ≡ none) × (s.lifecycle ≡ connected) × (s.sends ≡ 0) × (s.remaining ≡ 0)
InPhase c s ready =
    (s.active ≡ some c.reference)
    × (s.lifecycle ≡ connected)
    × (s.sends + s.remaining ≤ c.budget)
    × (s.in_flight ≡ [])
InPhase c s awaiting =
    (s.active ≡ some c.reference)
    × (s.lifecycle ≡ connected)
    × (s.sends + s.remaining ≤ c.budget + 1)
    × (s.in_flight ≡ pending_of c)
InPhase c s reconnect_cotp =
    (s.active ≡ some c.reference)
    × (s.lifecycle ≡ disconnected)
    × (s.sends + s.remaining ≤ c.budget)
    × (s.in_flight ≡ [])
InPhase c s reconnect_setup =
    (s.active ≡ some c.reference)
    × (s.lifecycle ≡ disconnected)
    × (s.sends + s.remaining ≤ c.budget)
    × (s.in_flight ≡ [])
InPhase c s failed =
    (s.active ≡ none) × (s.lifecycle ≡ disconnected) × (s.sends + s.remaining ≤ c.budget + 1)
InPhase c s completed =
    (s.active ≡ none)
    × (s.lifecycle ≡ connected)
    × (s.sends + s.remaining ≤ c.budget + 1)
    × (s.in_flight ≡ [])
InPhase c s Phase.closed =
    (s.active ≡ none) × (s.lifecycle ≡ Lifecycle.closed) × (s.sends + s.remaining ≤ c.budget + 1)

abbrev pub IsSound : Config → State → Type 0
IsSound c s = InPhase c s s.phase

begin-IsSound : (c : Config) (s : State) → IsSound c s → IsSound c (begin_step c s).0
unfolding begin_step
begin-IsSound c s h = ground arith

send-IsSound : (c : Config) (s : State) → IsSound c s → IsSound c (send_step c s).0
unfolding send_step
send-IsSound c s h = ground arith

setup-IsSound : (c : Config) (s : State) → IsSound c s → IsSound c (setup_step s).0
unfolding setup_step
setup-IsSound c s h = ground arith

reconnected-IsSound : (c : Config) (s : State) → IsSound c s → IsSound c (reconnected_step s).0
unfolding reconnected_step
reconnected-IsSound c s h = ground arith

failure-IsSound :
    (c : Config) (kind : ErrorKind) (s : State) → IsSound c s → IsSound c (failure_step c kind s).0
unfolding failure_step
failure-IsSound c kind s h = ground arith

-- The strict `zip` does not raise where the lengths agree.
pub settle_each-total :
    (ls : List Location) (os : List Outcome)
    → length os ≡ length ls
    → (done : List Attempt) × (settle_each ls os ≡ ok done) × (length done ≡ length ls)
unfolding settle_each
settle_each-total [] [] h = ([], refl, refl)
settle_each-total [] (o ∷ os) h = absurd (omega arith)
settle_each-total (l ∷ ls) [] h = absurd (omega arith)
settle_each-total (l ∷ ls) (o ∷ os) h =
    let (done, e, n) = settle_each-total ls os (omega arith) in
    (record { location = l; outcome = o } ∷ done, rw e, ap suc n)

read_reply-no_results :
    (payload : Bytes) (o : Option ℕ) (rs : List Outcome)
    → read_reply payload o ≡ answered rs
    → rs ≡ []
unfolding read_reply
read_reply-no_results payload none rs h = ground arith
read_reply-no_results payload (some offset) rs h = ground arith

-- An accepted reply to a write has one outcome for each location.
pub length-response :
    (c : Config) (pdu : Bytes) (rs : List Outcome)
    → response c pdu ≡ answered rs
    → length rs ≡ length (pending_of c)
unfolding response
length-response c pdu rs h =
    let payload = drop (12 + word_at pdu 6) pdu in
    ground (
      arith,
      length-map payload code_outcome,
      read_reply-no_results payload (check_items payload 0 c.locations) rs,
    )

fail-IsSound :
    (c : Config) (kind : ErrorKind) (s : State)
    → IsSound c s
    → s.phase ≡ awaiting
    → IsSound c (fail c kind s)
unfolding fail
fail-IsSound c kind s h p = ground arith

-- The end of a request, whatever its history becomes.
abbrev completing : State → List Attempt → State
completing s history = record s {
  history = history;
  in_flight = [];
  active = none;
  phase = completed;
}

completing-IsSound :
    (c : Config) (s : State) (history : List Attempt)
    → IsSound c s
    → s.phase ≡ awaiting
    → IsSound c (completing s history)
completing-IsSound c s history h p =
    let facts : InPhase c s awaiting = rw p at h in (refl, facts.1, facts.2, refl)

-- A reply to the request in flight raises nothing, and keeps the invariant.
reply-IsSound :
    (c : Config) (s : State) (r : Reply)
    → ((rs : List Outcome) → r ≡ answered rs → length rs ≡ length (pending_of c))
    → IsSound c s
    → s.phase ≡ awaiting
    → (next : State × Answer) × (reply_step c s r ≡ ok next) × IsSound c next.0
unfolding reply_step finish_each
reply-IsSound c s (refused kind) n h p =
    ((fail c kind s, rejected response_codec), refl, fail-IsSound c kind s h p)
reply-IsSound c s (answered rs) n h p = elim (Bool-cases c.write) [
  | inl w ↦
      let facts : InPhase c s awaiting = rw p at h in
      let (done, e, _) = settle_each-total s.in_flight rs (n rs refl ∙ ap length (sym facts.3)) in
      (
        (completing s (s.history ++ done), accepted),
        rw w (rw e refl),
        completing-IsSound c s (s.history ++ done) h p,
      )
  | inr r ↦
      let facts : InPhase c s awaiting = rw p at h in
      let empty : s.in_flight ≡ [] = facts.3 ∙ ap (λ b. if b then c.locations else []) r in
      (
        (record s { active = none; phase = completed }, accepted),
        rw r refl,
        (refl, facts.1, facts.2, empty),
      )
]

awaits : (p : Phase) → is_awaiting p ≡ true → p ≡ awaiting
unfolding is_awaiting
awaits p h = ground arith

receive-IsSound :
    (c : Config) (pdu : Bytes) (s : State)
    → IsSound c s
    → (next : State × Answer) × (receive_step c pdu s ≡ ok next) × IsSound c next.0
unfolding receive_step
receive-IsSound c pdu s h =
    elim (Bool-cases
      (not (is_connected s.lifecycle) || not (is_some s.active) || not (is_awaiting s.phase))) [
        | inl bad ↦ ((s, rejected response_phase), rw bad refl, h)
        | inr fine ↦
            let phase = awaits s.phase (ground arith) in
            let (next, e, sound) =
              reply-IsSound c s (response c pdu) (length-response c pdu) h phase in
            (next, rw fine e, sound)
      ]

-- From a state that meets the invariant every event is handled without an exception, and the
-- state behind it meets the invariant.
pub step-IsSound :
    (c : Config) (s : State) (e : Event)
    → IsSound c s
    → (next : State × Answer) × (step c s e ≡ ok next) × IsSound c next.0
unfolding step
step-IsSound c s begin h = (begin_step c s, refl, begin-IsSound c s h)
step-IsSound c s send h = (send_step c s, refl, send-IsSound c s h)
step-IsSound c s setup_reached h = (setup_step s, refl, setup-IsSound c s h)
step-IsSound c s reconnected h = (reconnected_step s, refl, reconnected-IsSound c s h)
step-IsSound c s (failure kind) h = (failure_step c kind s, refl, failure-IsSound c kind s h)
step-IsSound c s (receive pdu) h = receive-IsSound c pdu s h
step-IsSound c s disconnect h = (
  (record s { lifecycle = Lifecycle.closed; active = none; phase = Phase.closed }, accepted),
  refl,
  ground arith,
)
