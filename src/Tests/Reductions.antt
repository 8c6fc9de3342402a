-- ===== src/Tests/Reductions.antt =====
-- The reconnects and the reducers at concrete cases.
use lean_s.Prelude.{
  ℕ, refl, ◌+◌, ◌≡◌, Bool, false, true, ◌&&◌, ◌⊎◌, some, List, [], ◌∷◌, length, ◌==◌,
}
use lean_s.Error.{ok, err, value_error}
use lean_s.Reconnect.{Case, expected, succeeds, sessions, multi, setup_eof}
use lean_s.Reconnect.Simulated.{expected-simulated, simulated}
use lean_s.Reducer.{minimize, minimize_all, delete, scan, reduce}
use lean_s.Reducer.Deleted.{Sub}
use lean_s.Reducer.Bounded.{Reduced, minimize-Reduced}
use lean_s.Reducer.Exhaustive.{Minimal, minimize_all-Minimal}

abbrev dropped_setup : Case
dropped_setup = record { mode = multi; fault = setup_eof; budget = 3; failures = 1 }

expected-simulated_example :
    ((expected dropped_setup).recovered ≡ (simulated dropped_setup).1)
    × (succeeds dropped_setup ≡ (simulated dropped_setup).1)
    × ((expected dropped_setup).connections ≡ 1 + (simulated dropped_setup).0)
    × (sessions dropped_setup ≡ 1 + (simulated dropped_setup).0)
    × ((expected dropped_setup).write_attempts
        ≡ (expected dropped_setup).acknowledged
          + (expected dropped_setup).pending_uncertain
          + (expected dropped_setup).replayed_uncertain)
    × (length (expected dropped_setup).write_chronology ≡ (expected dropped_setup).write_attempts)
expected-simulated_example = expected-simulated dropped_setup

-- whether a plan has an operation
abbrev has : ℕ → List ℕ → Bool
has n [] = false
has n (x ∷ xs) = elim (x == n) [ true ↦ true | false ↦ has n xs ]

abbrev both : List ℕ → Bool
both plan = has 3 plan && has 7 plan

abbrev history : List ℕ
history = 1 ∷ 3 ∷ 2 ∷ 7 ∷ 1 ∷ []

-- The reducer finds the two operations that make a plan fail.
history-minimize : minimize both 24 history ≡ ok (some (3 ∷ 7 ∷ [], 10))
unfolding minimize scan reduce delete
history-minimize = refl

minimize-Reduced_example :
    ((both history ≡ false) × (minimize both 24 history ≡ err value_error))
    ⊎ ((r : List ℕ × ℕ) × (minimize both 24 history ≡ ok (some r)) × Reduced both 24 history r)
minimize-Reduced_example = minimize-Reduced both 24 history

minimize_all-Minimal_example :
    (r : List ℕ) × (minimize_all both history ≡ some r)
    × Sub r history
    × (both history ≡ true → both r ≡ true)
    × Minimal both (length r) r
minimize_all-Minimal_example = minimize_all-Minimal both history
