-- ===== src/Retry.antt =====
-- `expected_attempts` of integration/retry_budgets.py, and what its peer does in each attempt.
pub mod Turns
use lean_s.Prelude.{
  ℕ, zero, suc, ◌+◌, Bool, true, false, not, ◌&&◌, ◌||◌, List, [], ◌∷◌, ltb, leb, ◌==◌,
  if◌then◌else◌,
}

-- the modes that the program runs
pub data Mode : Type 0 where
  read_mode raw_mode raw_opt_in_mode write_mode write_opt_in_mode : Mode

unfoldable pub replays : Mode → Bool
replays read_mode = true
replays raw_mode = false
replays raw_opt_in_mode = true
replays write_mode = false
replays write_opt_in_mode = true

-- whether an attempt is answered, given whether the mode replays
unfoldable pub succeeds : Bool → ℕ → ℕ → Bool
succeeds replay budget drops = drops == 0 || (replay && leb drops budget)

unfoldable pub attempts_of : Bool → ℕ → ℕ → ℕ
attempts_of replay budget drops =
    if succeeds replay budget drops then drops + 1 else (if replay then budget + 1 else 1)

unfoldable pub expected_attempts : Mode → ℕ → ℕ → ℕ × Bool
expected_attempts mode budget drops =
    (attempts_of (replays mode) budget drops, succeeds (replays mode) budget drops)

-- How an attempt ends: the connection is shut down, the accounting is found wrong (a RuntimeError),
-- or the request is answered.
pub data Turn : Type 0 where
  dropped diverged answered : Turn

unfoldable pub turn : ℕ × Bool → ℕ → ℕ → Turn
turn expected drops index =
    if ltb index drops
    then dropped
    else (if not expected.1 || not (index + 1 == expected.0) then diverged else answered)

-- The attempts behind one: the RuntimeError leaves the loop.
unfoldable pub follow : Turn → List Turn → List Turn
follow dropped rest = dropped ∷ rest
follow diverged rest = diverged ∷ []
follow answered rest = answered ∷ rest

-- so many attempts, from an index on
unfoldable pub turns : ℕ × Bool → ℕ → ℕ → ℕ → List Turn
turns expected drops zero index = []
turns expected drops (suc n) index =
    follow (turn expected drops index) (turns expected drops n (index + 1))

-- the loop over `range(attempts)`
unfoldable pub serve : Mode → ℕ → ℕ → List Turn
serve mode budget drops =
    let expected = expected_attempts mode budget drops in turns expected drops expected.0 0
