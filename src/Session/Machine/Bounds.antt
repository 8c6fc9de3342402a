-- ===== src/Session/Machine/Bounds.antt =====
-- What the whole history of a session (integration/session_conformance.py) keeps: no exception, bounded
-- sends, and one send at most of an unsafe write between two events `begin`.
use lean_s.Prelude.{
  ℕ, Bool-cases, inl, inr, ◌+◌, ◌≤◌, ◌≡◌, refl, sym, ◌∙◌, true, false, List, [], ◌∷◌, arith,
}
use lean_s.Error.{Result, ok, ok_inj, ◌>>=◌, >>=-eq-ok}
use lean_s.Conversation.Types.{ErrorKind}
use lean_s.Json.{Json, Items, nil, cons}
use lean_s.Session.Config.{Config, configuration}
use lean_s.Session.Response.{Reply, refused, answered, response}
use lean_s.Session.Machine.{
  Phase, idle, ready, reconnect_cotp, reconnect_setup, Event, begin, send, setup_reached,
  reconnected, disconnect, failure, receive, Answer, accepted, State, initial, step, reply_step,
  fail, settle_each, finish_each,
}
use lean_s.Session.Machine.Sound.{IsSound, step-IsSound}
use lean_s.Session.Trace.{parse_event, Snapshot, snapshot, run, event_items, trace}

IsSound-initial : (c : Config) → IsSound c initial
IsSound-initial c = (refl, refl, refl, refl)

sends-le : (c : Config) (s : State) → IsSound c s → s.sends ≤ c.budget + 1
sends-le c s h = ground arith

-- every snapshot of a trace
abbrev pub All {ℓ κ} : {A : Type ℓ} → (A → Type κ) → List A → Type κ
All P [] = Unit
All P (x ∷ xs) = P x × All P xs

-- the events of a case, with all of their checks and no state
unfoldable pub parse_events : Items → Result (List Event)
parse_events nil = ok []
parse_events (cons x xs) = do e ← parse_event x; es ← parse_events xs; ok (e ∷ es)

run-total :
    (c : Config) (items : Items) (es : List Event) (s : State)
    → IsSound c s
    → parse_events items ≡ ok es
    → (snaps : List Snapshot) × (run c s items ≡ ok snaps)
      × All (λ snap. snap.sends ≤ c.budget + 1) snaps
unfolding run parse_events
run-total c nil es s sound h = ([], refl, tt)
run-total c (cons x xs) es s sound h =
    let (e, he, h') = >>=-eq-ok (parse_event x) _ h in
    let (es', hes, _) = >>=-eq-ok (parse_events xs) _ h' in
    let (next, hn, sound') = step-IsSound c s e sound in
    let (snaps, hs, all) = run-total c xs es' next.0 sound' hes in
    (
      snapshot next ∷ snaps,
      rw he (rw hn (rw hs refl)),
      (unfold snapshot in sends-le c next.0 sound', all),
    )

-- A case whose configuration and events pass their checks is traced without an exception, and no
-- snapshot shows more sends than one above the retry budget.
pub trace-sends-le :
    (config events : Json) (c : Config) (items : Items) (es : List Event)
    → configuration config ≡ ok c
    → event_items events ≡ ok items
    → parse_events items ≡ ok es
    → (snaps : List Snapshot) × (trace config events ≡ ok snaps)
      × All (λ snap. snap.sends ≤ c.budget + 1) snaps
unfolding trace
trace-sends-le config events c items es hc hi hes =
    let (snaps, hs, all) = run-total c items es initial (IsSound-initial c) hes in
    (snaps, rw hc (rw hi hs), all)

-- How an event and its answer change the number of sends accepted since the last `begin` that was.
abbrev pub counted : Event → Answer → ℕ → ℕ
counted begin accepted n = 0
counted send accepted n = n + 1
counted e answer n = n

-- That number at each snapshot of a trace, from the events and the answers alone.
abbrev pub sends_since : ℕ → List Event → List Snapshot → List ℕ
sends_since n [] snaps = []
sends_since n (e ∷ es) [] = []
sends_since n (e ∷ es) (snap ∷ snaps) =
    let next = counted e snap.answer n in next ∷ sends_since next es snaps

fail-sends : (c : Config) (kind : ErrorKind) (s : State) → (fail c kind s).sends ≡ s.sends
unfolding fail
fail-sends c kind s = ground arith

reply-sends :
    (c : Config) (s : State) (r : Reply) (next : State × Answer)
    → reply_step c s r ≡ ok next
    → next.0.sends ≡ s.sends
unfolding reply_step finish_each
reply-sends c s (refused kind) next h = ground (arith, fail-sends c kind s)
reply-sends c s (answered rs) next h = elim (Bool-cases c.write) [
  | inl w ↦
      let (t, ht, e) = >>=-eq-ok (finish_each rs s) _ (rw w at h) in
      let (done, _, e') = >>=-eq-ok (settle_each s.in_flight rs) _ ht in ground arith
  | inr r ↦ ground arith
]

-- A step keeps count.
step-counted :
    (c : Config) (s : State) (e : Event) (next : State × Answer)
    → step c s e ≡ ok next
    → counted e next.1 s.sends ≡ next.0.sends
unfolding step
step-counted c s begin next h = ground arith
step-counted c s send next h = ground arith
step-counted c s setup_reached next h = ground arith
step-counted c s reconnected next h = ground arith
step-counted c s disconnect next h = ground arith
step-counted c s (failure kind) next h = ground (arith, fail-sends c kind s)
step-counted c s (receive pdu) next h = ground (arith, reply-sends c s (response c pdu) next)

-- Where a replay is forbidden: one send at most, and no phase that leads to another.
abbrev pub OneSend : State → Phase → Type 0
OneSend s idle = s.sends ≡ 0
OneSend s ready = s.sends ≡ 0
OneSend s reconnect_cotp = ⊥
OneSend s reconnect_setup = ⊥
OneSend s _ = s.sends ≤ 1

module _ (c : Config) (write : c.write ≡ true) (forbidden : c.allow ≡ false) where
  reply-OneSend :
      (s : State) (r : Reply) {next : State × Answer}
      → s.sends ≤ 1
      → reply_step c s r ≡ ok next
      → OneSend next.0 next.0.phase
  unfolding reply_step finish_each
  reply-OneSend s (refused kind) n h = ground arith
  reply-OneSend s (answered rs) {next} n h =
      let (t, ht, e) = >>=-eq-ok (finish_each rs s) _ (rw write at h) in
      let (done, _, e') = >>=-eq-ok (settle_each s.in_flight rs) _ ht in ground arith

  -- Every event keeps a write that must not be replayed in a phase of at most one send.
  pub step-OneSend :
      (s : State) (e : Event) {next : State × Answer}
      → OneSend s s.phase
      → step c s e ≡ ok next
      → OneSend next.0 next.0.phase
  unfolding step
  step-OneSend s (receive pdu) {next} one h =
      ground (arith, reply-OneSend s (response c pdu) {next = next})
  step-OneSend s begin one h = ground arith
  step-OneSend s send one h = ground arith
  step-OneSend s _ one h = ground arith

  one_at_most : (s : State) → OneSend s s.phase → s.sends ≤ 1
  one_at_most s h = ground arith

  run-OneSend :
      (items : Items) (es : List Event) (s : State) (snaps : List Snapshot)
      → OneSend s s.phase
      → parse_events items ≡ ok es
      → run c s items ≡ ok snaps
      → All (λ n. n ≤ 1) (sends_since s.sends es snaps)
  unfolding run snapshot parse_events
  run-OneSend nil es s snaps one p h = let e : [] ≡ es = ground arith in rw (← e) tt
  run-OneSend (cons x xs) es s snaps one p h =
      let (e, he, h') = >>=-eq-ok (parse_event x) _ h in
      let (next, hn, h'') = >>=-eq-ok (step c s e) _ h' in
      let (rest, hr, eq) = >>=-eq-ok (run c next.0 xs) _ h'' in
      let (e', he', p') = >>=-eq-ok (parse_event x) _ p in
      let (es', hes, eqs) = >>=-eq-ok (parse_events xs) _ p' in
      let same : e' ≡ e = ok_inj (sym he' ∙ he) in
      let one' = step-OneSend s e one hn in
      let counted = step-counted c s e next hn in
      rw (← ok_inj eq, ← ok_inj eqs, same, counted)
        (one_at_most next.0 one', run-OneSend xs es' next.0 rest one' hes hr)

-- A case whose configuration and events pass their checks, of a write that must not be replayed, is
-- traced without an exception; at every snapshot, at most one event `send` has been accepted since
-- the last event `begin` that was.
pub trace-one_send :
    (config events : Json) (c : Config) (items : Items) (es : List Event)
    → configuration config ≡ ok c
    → event_items events ≡ ok items
    → parse_events items ≡ ok es
    → c.write ≡ true
    → c.allow ≡ false
    → (snaps : List Snapshot) × (trace config events ≡ ok snaps)
      × All (λ n. n ≤ 1) (sends_since 0 es snaps)
unfolding trace
trace-one_send config events c items es hc hi hes w a =
    let (snaps, hs, all) = trace-sends-le config events c items es hc hi hes in
    (snaps, hs, run-OneSend c w a items es initial snaps refl hes (rw (hc, hi) at hs))
