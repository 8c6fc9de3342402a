-- ===== src/Operation/Progress/Laws.antt =====
-- The attempts of an accepted progress case: what was sent, in order, each counted once.
use mathlib.Core.List.{map-append}
use mathlib.Core.Path.{ap₂}
use lean_s.Prelude.{
  ◌+◌, ◌≡◌, refl, sym, ap, ◌∙◌, not, ◌||◌, true, some, List, [], ◌∷◌, ◌++◌, arith, length, map,
  append-nil, append_assoc, Bool-cases, Option-cases, inl, inr, ◌==◌,
}
use lean_s.Operation.Progress.{
  ItemStatus, Outcome, replayed_unknown, global_rejected, pending, Event, send, acknowledge, replay,
  global_reject, Attempt, Progress, Summary, is_acknowledged, is_rejected, is_replayed, is_pending,
  settle, settle_results, progress_step, progress_steps, count_outcomes, summary, decode_progress,
}

module _ {ℓ} {L : Type ℓ} where
  pub place : Attempt L → L
  place a = a.location

  location_settle : (o : Outcome) (ls : List L) → map place (settle o ls) ≡ ls
  unfolding settle place
  location_settle o [] = refl
  location_settle o (l ∷ ls) = ap (◌∷◌ l) (location_settle o ls)

  location_settle_results :
      (ls : List L) (rs : List ItemStatus)
      → length rs ≡ length ls
      → map place (settle_results ls rs) ≡ ls
  unfolding settle_results place
  location_settle_results [] rs h = refl
  location_settle_results (l ∷ ls) [] h = absurd (omega arith)
  location_settle_results (l ∷ ls) (r ∷ rs) h =
      ap (◌∷◌ l) (location_settle_results ls rs (omega arith))

  -- the locations that the events send
  abbrev pub sent : List (Event L) → List L
  sent [] = []
  sent (send locations ∷ es) = locations ++ sent es
  sent (e ∷ es) = sent es

  abbrev places : Progress L → List L
  places s = map place s.attempts ++ s.in_flight

  settled-places :
      (done : List (Attempt L)) (in_flight : List L) (more : List (Attempt L))
      → map place more ≡ in_flight
      → map place (done ++ more) ++ [] ≡ map place done ++ in_flight
  settled-places done in_flight more e =
      append-nil _ ∙ map-append place done more ∙ ap (λ xs. map place done ++ xs) e

  no_elements : (xs : List L) → length xs == 0 ≡ true → xs ≡ []
  no_elements [] h = refl
  no_elements (x ∷ xs) h = ground arith

  before : (s : Progress L) → s.in_flight ≡ [] → map place s.attempts ≡ places s
  before s clear = sym (append-nil _) ∙ ap (λ xs. map place s.attempts ++ xs) (sym clear)

  all_settled :
      (s s' : Progress L) (o : Outcome)
      → some (record { attempts = s.attempts ++ settle o s.in_flight; in_flight = [] }) ≡ some s'
      → places s' ≡ places s ++ []
  all_settled s s' o h =
      let done = settle o s.in_flight in
      let e : record { attempts = s.attempts ++ done; in_flight = [] } ≡ s' = cc h in
      let moved = location_settle o s.in_flight in
      rw (← e) (settled-places s.attempts s.in_flight done moved ∙ sym (append-nil (places s)))

  sent-cons : (e : Event L) (es : List (Event L)) → sent (e ∷ es) ≡ sent (e ∷ []) ++ sent es
  sent-cons (send locations) es = ap (λ xs. xs ++ sent es) (sym (append-nil locations))
  sent-cons (acknowledge results) es = refl
  sent-cons replay es = refl
  sent-cons global_reject es = refl

  step-places :
      (s s' : Progress L) (e : Event L)
      → progress_step s e ≡ some s'
      → places s' ≡ places s ++ sent (e ∷ [])
  unfolding progress_step
  step-places s s' (send locations) h =
      elim (Bool-cases (not (length s.in_flight == 0) || length locations == 0)) [
        | inl bad ↦ cc (rw bad at h)
        | inr fine ↦
            let e : record s { in_flight = locations } ≡ s' = cc (rw fine at h) in
            let clear = no_elements s.in_flight (ground arith) in
            rw (← e) (ap₂ ◌++◌ (before s clear) (sym (append-nil locations)))
      ]
  step-places s s' (acknowledge results) h =
      elim (Bool-cases (not (length results == length s.in_flight))) [
        | inl bad ↦ cc (rw bad at h)
        | inr fine ↦
            let done = settle_results s.in_flight results in
            let moved = location_settle_results s.in_flight results (ground arith) in
            let e : record { attempts = s.attempts ++ done; in_flight = [] } ≡ s' =
              cc (rw fine at h) in
            rw (← e)
              (settled-places s.attempts s.in_flight done moved ∙ sym (append-nil (places s)))
      ]
  step-places s s' replay h = all_settled s s' replayed_unknown h
  step-places s s' global_reject h = all_settled s s' global_rejected h

  steps-places :
      (s s' : Progress L) (es : List (Event L))
      → progress_steps s es ≡ some s'
      → places s' ≡ places s ++ sent es
  unfolding progress_steps
  steps-places s s' [] h = let e : s ≡ s' = cc h in rw e (sym (append-nil (places s')))
  steps-places s s' (e ∷ es) h = elim (Option-cases (progress_step s e)) [
    | inl stopped ↦ absurd (ground (arith, stopped))
    | inr (t, ht) ↦
        let later : progress_steps t es ≡ some s' = ground (arith, ht) in
        steps-places t s' es later
        ∙ ap (λ xs. xs ++ sent es) (step-places s t e ht)
        ∙ append_assoc (places s) (sent (e ∷ [])) (sent es)
        ∙ ap (λ xs. places s ++ xs) (sym (sent-cons e es))
  ]

  outcomes_partition :
      (done : List (Attempt L))
      → count_outcomes is_acknowledged done
          + count_outcomes is_rejected done
          + count_outcomes is_replayed done
          + count_outcomes is_pending done
        ≡ length done
  unfolding count_outcomes is_acknowledged is_rejected is_replayed is_pending
  outcomes_partition [] = refl
  outcomes_partition (a ∷ done) = ground (arith, outcomes_partition done)

  -- An accepted progress case lists every location that its events sent, in their order, and its
  -- four counts add up to the number of its attempts.
  pub decode_progress-attempts :
      (events : List (Event L)) (r : Summary L)
      → decode_progress events ≡ some r
      → (map place r.attempts ≡ sent events)
        × (r.acknowledged_count + r.rejected_count + r.replayed_uncertain_count + r.uncertain_count
            ≡ length r.attempts)
  unfolding decode_progress summary
  decode_progress-attempts events r h =
      let start : Progress L = record { attempts = []; in_flight = [] } in
      elim (Option-cases (progress_steps start events)) [
        | inl stopped ↦ absurd (ground (arith, stopped))
        | inr (s, hs) ↦
            let all = s.attempts ++ settle pending s.in_flight in
            let e : summary all ≡ r = ground (arith, hs) in
            let listed : map place all ≡ sent events =
              map-append place s.attempts (settle pending s.in_flight)
              ∙ ap (λ xs. map place s.attempts ++ xs) (location_settle pending s.in_flight)
              ∙ steps-places start s events hs in
            rw (← e) (listed, outcomes_partition all)
      ]
