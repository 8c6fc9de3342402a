-- ===== src/Session/Machine/Accounts.antt =====
-- Conservation: a snapshot shows each location once for every send of it, and no other.
use lean_s.Prelude.{
  ◌+◌, ◌*◌, ◌≡◌, refl, ap, ◌∙◌, not, ◌&&◌, ◌||◌, ◌==◌, Bool-cases, inl, inr, false, List, [], ◌∷◌,
  arith, if◌then◌else◌, length, length-append,
}
use lean_s.Error.{ok, ok_inj, >>=-eq-ok}
use lean_s.Conversation.Types.{
  Location, Attempt, Outcome, replayed_unknown, global_rejected, settle, ErrorKind,
}
use lean_s.Conversation.History.{is_connected}
use lean_s.Json.{Json, Items, nil, cons}
use lean_s.Session.Config.{Config, configuration}
use lean_s.Session.Trace.{parse_event, Snapshot, snapshot, attempts, run, event_items, trace}
use lean_s.Session.Machine.Bounds.{All, parse_events, trace-sends-le}
use lean_s.Session.Response.{Reply, refused, answered, response}
use lean_s.Session.Machine.{
  Phase, awaiting, is_ready, is_some, may_fail, Event, begin, send, failure, receive, Answer, State,
  initial, step, begin_step, send_step, failure_step, reply_step, settle_each, finish_each, fail,
}

pub length-settle : (o : Outcome) (ls : List Location) → length (settle o ls) ≡ length ls
unfolding settle
length-settle o [] = refl
length-settle o (l ∷ ls) = omega (arith, length-settle o ls)

abbrev pub IsAccounted : Config → State → Type 0
IsAccounted c s =
    length s.history + length s.in_flight ≡ (if c.write then s.sends * length c.locations else 0)

fail-IsAccounted :
    (c : Config) (kind : ErrorKind) (s : State) → IsAccounted c s → IsAccounted c (fail c kind s)
unfolding fail
fail-IsAccounted c kind s h = ground (
  arith,
  length-settle replayed_unknown s.in_flight,
  length-settle global_rejected s.in_flight,
  length-append s.history (settle replayed_unknown s.in_flight),
  length-append s.history (settle global_rejected s.in_flight),
)

-- An accepted send finds nothing in flight that it would drop.
sent-IsAccounted :
    (c : Config) (s : State) (phase : Phase)
    → c.write && not (length s.in_flight == 0) ≡ false
    → IsAccounted c s
    → IsAccounted c (record s {
      in_flight = if c.write then c.locations else s.in_flight;
      sends = s.sends + 1;
      phase = phase;
    })
sent-IsAccounted c s phase clear h = elim (Bool-cases c.write) [
  | inl w ↦ rw w (
      let h' : length s.history + length s.in_flight ≡ s.sends * length c.locations = rw w at h in
      let none_left : length s.in_flight ≡ 0 = ground arith in omega arith)
  | inr r ↦ rw r (rw r at h)
]

send-IsAccounted : (c : Config) (s : State) → IsAccounted c s → IsAccounted c (send_step c s).0
unfolding send_step
send-IsAccounted c s h =
    elim (Bool-cases
      (not (is_connected s.lifecycle) || not (is_some s.active) || not (is_ready s.phase))) [
        | inl bad ↦ rw bad h
        | inr fine ↦ rw fine (elim (Bool-cases (c.write && not (length s.in_flight == 0))) [
          | inl full ↦ rw full h
          | inr clear ↦ rw clear (sent-IsAccounted c s awaiting clear h)
        ])
      ]

settled-length :
    (ls : List Location) (os : List Outcome) (done : List Attempt)
    → settle_each ls os ≡ ok done
    → length done ≡ length ls
unfolding settle_each
settled-length [] [] done h = ground arith
settled-length [] (o ∷ os) done h = cc
settled-length (l ∷ ls) [] done h = cc
settled-length (l ∷ ls) (o ∷ os) done h =
    let (rest, hr, e) = >>=-eq-ok (settle_each ls os) _ h in
    ground (arith, settled-length ls os rest hr)

reply-IsAccounted :
    (c : Config) (s : State) (r : Reply) (next : State × Answer)
    → IsAccounted c s
    → reply_step c s r ≡ ok next
    → IsAccounted c next.0
unfolding reply_step finish_each
reply-IsAccounted c s (refused kind) next h e = ground (arith, fail-IsAccounted c kind s h)
reply-IsAccounted c s (answered rs) next h e = elim (Bool-cases c.write) [
  | inl w ↦
      let (t, ht, e') = >>=-eq-ok (finish_each rs s) _ (rw w at e) in
      let (done, hd, e'') = >>=-eq-ok (settle_each s.in_flight rs) _ ht in
      ground (arith, settled-length s.in_flight rs done hd, length-append s.history done)
  | inr r ↦ ground arith
]

begin-IsAccounted : (c : Config) (s : State) → IsAccounted c s → IsAccounted c (begin_step c s).0
unfolding begin_step
begin-IsAccounted c s h = elim (Bool-cases (not (is_connected s.lifecycle))) [
  | inl bad ↦ rw bad h
  | inr fine ↦ rw fine (elim (Bool-cases (is_some s.active)) [
    | inl busy ↦ rw busy h
    | inr free ↦
        rw free (elim (Bool-cases c.write) [ inl w ↦ rw w (omega arith) | inr r ↦ rw r refl ])
  ])
]

failure-IsAccounted :
    (c : Config) (kind : ErrorKind) (s : State)
    → IsAccounted c s
    → IsAccounted c (failure_step c kind s).0
unfolding failure_step
failure-IsAccounted c kind s h = elim (Bool-cases (is_some s.active && may_fail s.phase)) [
  | inl live ↦ rw live (fail-IsAccounted c kind s h)
  | inr dead ↦ rw dead h
]

-- Every event keeps the account.
step-IsAccounted :
    (c : Config) (s : State) (e : Event) (next : State × Answer)
    → IsAccounted c s
    → step c s e ≡ ok next
    → IsAccounted c next.0
unfolding step
step-IsAccounted c s begin next h e = ground (arith, begin-IsAccounted c s h)
step-IsAccounted c s send next h e = ground (arith, send-IsAccounted c s h)
step-IsAccounted c s (failure kind) next h e = ground (arith, failure-IsAccounted c kind s h)
step-IsAccounted c s (receive pdu) next h e =
    ground (arith, reply-IsAccounted c s (response c pdu) next h)
step-IsAccounted c s _ next h e = ground arith

-- What a snapshot of an accounted state shows.
abbrev pub Shown : Config → Snapshot → Type 0
Shown c snap = length snap.attempts ≡ (if c.write then snap.sends * length c.locations else 0)

snapshot-Shown :
    (c : Config) (next : State × Answer) → IsAccounted c next.0 → Shown c (snapshot next)
unfolding snapshot attempts
snapshot-Shown c (s, answer) h =
    length-append s.history (settle Outcome.pending s.in_flight)
    ∙ ap (◌+◌ (length s.history)) (length-settle Outcome.pending s.in_flight)
    ∙ h

run-Shown :
    (c : Config) (items : Items) (s : State) (snaps : List Snapshot)
    → IsAccounted c s
    → run c s items ≡ ok snaps
    → All (Shown c) snaps
unfolding run
run-Shown c nil s snaps a h = rw (← ok_inj h) tt
run-Shown c (cons x xs) s snaps a h =
    let (e, he, h') = >>=-eq-ok (parse_event x) _ h in
    let (next, hn, h'') = >>=-eq-ok (step c s e) _ h' in
    let (rest, hr, eq) = >>=-eq-ok (run c next.0 xs) _ h'' in
    let a' = step-IsAccounted c s e next a hn in
    rw (← ok_inj eq) (snapshot-Shown c next a', run-Shown c xs next.0 rest a' hr)

IsAccounted-initial : (c : Config) → IsAccounted c initial
IsAccounted-initial c = ground arith

-- A case whose configuration and events pass their checks is traced without an exception, and every
-- snapshot shows as many attempts, settled or pending, as the sends of a write times its locations,
-- and none for a read.
pub trace-attempts :
    (config events : Json) (c : Config) (items : Items) (es : List Event)
    → configuration config ≡ ok c
    → event_items events ≡ ok items
    → parse_events items ≡ ok es
    → (snaps : List Snapshot) × (trace config events ≡ ok snaps) × All (Shown c) snaps
unfolding trace
trace-attempts config events c items es hc hi hes =
    let (snaps, hs, all) = trace-sends-le config events c items es hc hi hes in
    (snaps, hs, run-Shown c items initial snaps (IsAccounted-initial c) (rw (hc, hi) at hs))
