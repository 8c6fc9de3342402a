-- ===== src/Operation/Progress.antt =====
-- `decode_progress` of integration/operation_conformance.py: the attempts of a multi-item write.
-- A location is opaque to this oracle, which only copies it.
pub mod Laws
use lean_s.Prelude.{
  ℕ, suc, ◌+◌, Bool, true, false, not, ◌||◌, List, [], ◌∷◌, ◌++◌, ◌==◌, if◌then◌else◌, length,
  Option, none, some,
}

-- {"status": "success"}, or another status with its code
pub data ItemStatus : Type 0 where
  success : ItemStatus
  failed : ℕ → ItemStatus

pub data Outcome : Type 0 where
  succeeded replayed_unknown global_rejected pending : Outcome
  failure : ℕ → Outcome

pub data Event {ℓ} (L : Type ℓ) : Type ℓ where
  send : List L → Event L
  acknowledge : List ItemStatus → Event L
  replay : Event L
  global_reject : Event L

pub record Attempt {ℓ} (L : Type ℓ) : Type ℓ where
  pub location : L
  pub outcome : Outcome

-- `attempts` and `pending` of the loop
pub record Progress {ℓ} (L : Type ℓ) : Type ℓ where
  pub attempts : List (Attempt L)
  pub in_flight : List L

pub record Summary {ℓ} (L : Type ℓ) : Type ℓ where
  pub attempts : List (Attempt L)
  pub acknowledged_count : ℕ
  pub rejected_count : ℕ
  pub replayed_uncertain_count : ℕ
  pub uncertain_count : ℕ

unfoldable pub status_outcome : ItemStatus → Outcome
status_outcome success = succeeded
status_outcome (failed code) = failure code

unfoldable pub is_acknowledged : Outcome → Bool
is_acknowledged succeeded = true
is_acknowledged (failure code) = true
is_acknowledged _ = false

unfoldable pub is_rejected : Outcome → Bool
is_rejected global_rejected = true
is_rejected _ = false

unfoldable pub is_replayed : Outcome → Bool
is_replayed replayed_unknown = true
is_replayed _ = false

unfoldable pub is_pending : Outcome → Bool
is_pending pending = true
is_pending _ = false

module _ {ℓ} {L : Type ℓ} where
  unfoldable pub settle : Outcome → List L → List (Attempt L)
  settle outcome [] = []
  settle outcome (l ∷ ls) = record { location = l; outcome = outcome } ∷ settle outcome ls

  -- zip(pending, results, strict=True), of two lists that are equally long
  unfoldable pub settle_results : List L → List ItemStatus → List (Attempt L)
  settle_results [] rs = []
  settle_results (l ∷ ls) [] = []
  settle_results (l ∷ ls) (r ∷ rs) =
      record { location = l; outcome = status_outcome r } ∷ settle_results ls rs

  -- `none` is the rejection "progress-transition".
  unfoldable pub progress_step : Progress L → Event L → Option (Progress L)
  progress_step s (send locations) =
      if not (length s.in_flight == 0) || length locations == 0
      then none
      else some (record s { in_flight = locations })
  progress_step s (acknowledge results) =
      if not (length results == length s.in_flight)
      then none
      else some
          (record { attempts = s.attempts ++ settle_results s.in_flight results; in_flight = [] })
  progress_step s replay =
      some (record { attempts = s.attempts ++ settle replayed_unknown s.in_flight; in_flight = [] })
  progress_step s global_reject =
      some (record { attempts = s.attempts ++ settle global_rejected s.in_flight; in_flight = [] })

  unfoldable pub progress_steps : Progress L → List (Event L) → Option (Progress L)
  progress_steps s [] = some s
  progress_steps s (e ∷ es) = elim (progress_step s e) [
    | none ↦ none
    | some s' ↦ progress_steps s' es
  ]

  unfoldable pub count_outcomes : (Outcome → Bool) → List (Attempt L) → ℕ
  count_outcomes test [] = 0
  count_outcomes test (a ∷ attempts) =
      (if test a.outcome then 1 else 0) + count_outcomes test attempts

  unfoldable pub summary : List (Attempt L) → Summary L
  unfolding is_acknowledged is_rejected is_replayed is_pending count_outcomes
  summary attempts = record {
    attempts = attempts;
    acknowledged_count = count_outcomes is_acknowledged attempts;
    rejected_count = count_outcomes is_rejected attempts;
    replayed_uncertain_count = count_outcomes is_replayed attempts;
    uncertain_count = count_outcomes is_pending attempts;
  }

  unfoldable pub decode_progress : List (Event L) → Option (Summary L)
  decode_progress events = elim (progress_steps (record { attempts = []; in_flight = [] }) events) [
    | none ↦ none
    | some s ↦ some (summary (s.attempts ++ settle pending s.in_flight))
  ]
