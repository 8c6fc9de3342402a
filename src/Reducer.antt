-- ===== src/Reducer.antt =====
-- The two reducers of failing histories: `minimize` of integration/mixed_operations.py, which has a
-- budget, and `minimize` of integration/session_fuzz.py, which goes on to the end.
pub mod Deleted
pub mod Bounded
pub mod Exhaustive
use Prim.Native.Nat.{min, max}
use lean_s.Prelude.{
  ℕ, zero, suc, ◌+◌, ◌*◌, ◌/◌, Bool, true, false, not, ◌&&◌, ◌||◌, Option, none, some, List, [],
  ◌∷◌, ◌++◌, ltb, leb, ◌==◌, if◌then◌else◌, length, take, drop,
}
use lean_s.Error.{Result, ok, err, value_error}

module _ {A : Type 0} where
  -- plan[:offset] + plan[offset + width :]
  unfoldable pub delete : ℕ → ℕ → List A → List A
  delete offset width plan = take offset plan ++ drop (offset + width) plan

  -- The loop over `range(0, len(plan), width)` from an offset on: the candidate that it broke off
  -- with, if any, and the attempts so far. `none` is fuel that ran out.
  unfoldable pub scan : (List A → Bool) → ℕ → List A → ℕ → ℕ → ℕ → ℕ → Option (Option (List A) × ℕ)
  scan fails budget plan width zero offset attempts = none
  scan fails budget plan width (suc fuel) offset attempts =
      let candidate = delete offset width plan in
      let rest = scan fails budget plan width fuel (offset + width) (attempts + 1) in
      if not (ltb offset (length plan))
      then some (none, attempts)
      else if fails candidate
      then some (some candidate, attempts + 1)
      else if leb budget (attempts + 1)
      then some (none, attempts + 1)
      else rest

  -- `while plan and attempts < budget`, with what the plan and the attempts are at its end
  unfoldable pub reduce : (List A → Bool) → ℕ → ℕ → List A → ℕ → ℕ → Option (List A × ℕ)
  reduce fails budget zero plan width attempts = none
  reduce fails budget (suc fuel) plan width attempts =
      elim (length plan == 0 || leb budget attempts) [
        | true ↦ some (plan, attempts)
        | false ↦ elim (scan fails budget plan width (suc (length plan)) 0 attempts) [
          | none ↦ none
          | some (none, attempts') ↦ elim (width == 1) [
            | true ↦ some (plan, attempts')
            | false ↦ reduce fails budget fuel plan (max 1 (width / 2)) attempts'
          ]
          | some (some plan', attempts') ↦
              reduce fails budget fuel plan' (min width (max 1 (length plan'))) attempts'
        ]
      ]

  -- the reducer of mixed_operations.py, with the attempts that it has made
  unfoldable pub minimize : (List A → Bool) → ℕ → List A → Result (Option (List A × ℕ))
  minimize fails budget plan =
      if not (fails plan)
      then err value_error
      else ok (reduce fails budget (suc budget) plan (max 1 (length plan / 2)) 0)

  -- `while index < len(result)` of session_fuzz.py, with the result at its end
  unfoldable pub sweep : (List A → Bool) → ℕ → ℕ → ℕ → List A → Option (List A)
  sweep fails width zero index result = none
  sweep fails width (suc fuel) index result =
      let candidate = delete index width result in
      let again = sweep fails width fuel 0 candidate in
      let further = sweep fails width fuel (index + width) result in
      if not (ltb index (length result))
      then some result
      else if not (length candidate == 0) && fails candidate
      then again
      else further

  -- `while width`, which is halved in each round
  unfoldable pub sweeps : (List A → Bool) → ℕ → ℕ → List A → Option (List A)
  sweeps fails zero width result = none
  sweeps fails (suc fuel) width result = elim (width == 0) [
    | true ↦ some result
    | false ↦
        elim (sweep fails width (suc (length result * length result + length result)) 0 result) [
          | none ↦ none
          | some result' ↦ sweeps fails fuel (width / 2) result'
        ]
  ]

  -- the reducer of session_fuzz.py
  unfoldable pub minimize_all : (List A → Bool) → List A → Option (List A)
  minimize_all fails events =
      let width = max 1 (length events / 2) in sweeps fails (suc width) width events
