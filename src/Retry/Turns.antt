-- ===== src/Retry/Turns.antt =====
-- The attempts of integration/retry_budgets.py against a client that retries on its own.
use lean_s.Prelude.{ℕ, zero, suc, ◌+◌, ◌≡◌, refl, ap, ◌∙◌, Bool, true, false, List, [], ◌∷◌, arith}
use lean_s.Retry.{
  Mode, replays, succeeds, attempts_of, expected_attempts, Turn, dropped, diverged, answered, turn,
  follow, turns, serve,
}

-- A client that sends, and sends again after each drop while it may and its budget lasts.
unfoldable pub client : Bool → ℕ → ℕ → List Turn
client replay budget zero = answered ∷ []
client false budget (suc drops) = dropped ∷ []
client true zero (suc drops) = dropped ∷ []
client true (suc budget) (suc drops) = dropped ∷ client true budget drops

abbrev expected : Bool → ℕ → ℕ → ℕ × Bool
expected replay budget drops = (attempts_of replay budget drops, succeeds replay budget drops)

attempts-suc :
    (budget drops : ℕ)
    → attempts_of true (suc budget) (suc drops) ≡ suc (attempts_of true budget drops)
unfolding attempts_of succeeds
attempts-suc budget drops = ground arith

turn-suc :
    (budget drops index : ℕ)
    → turn (expected true (suc budget) (suc drops)) (suc drops) (index + 1)
      ≡ turn (expected true budget drops) drops index
unfolding turn attempts_of succeeds
turn-suc budget drops index = ground arith

turns-suc :
    (budget drops n index : ℕ)
    → turns (expected true (suc budget) (suc drops)) (suc drops) n (index + 1)
      ≡ turns (expected true budget drops) drops n index
unfolding turns
turns-suc budget drops zero index = refl
turns-suc budget drops (suc n) index =
    rw (turn-suc budget drops index, turns-suc budget drops n (index + 1)) refl

turns-cons :
    (x : ℕ × Bool) (drops n index : ℕ)
    → turns x drops (suc n) index ≡ follow (turn x drops index) (turns x drops n (index + 1))
unfolding turns
turns-cons x drops n index = refl

turn-first : (x : ℕ × Bool) (drops : ℕ) → turn x (suc drops) 0 ≡ dropped
unfolding turn
turn-first x drops = ground arith

follow-nil : (t : Turn) → follow t [] ≡ t ∷ []
unfolding follow
follow-nil dropped = refl
follow-nil diverged = refl
follow-nil answered = refl

turns-single :
    (replay : Bool) (budget drops : ℕ) (t : Turn)
    → attempts_of replay budget drops ≡ 1
    → turn (expected replay budget drops) drops 0 ≡ t
    → turns (expected replay budget drops) drops (attempts_of replay budget drops) 0 ≡ t ∷ []
unfolding turns
turns-single replay budget drops t e f =
    ap (λ n. turns (expected replay budget drops) drops n 0) e
    ∙ ap (λ k. follow k []) f
    ∙ follow-nil t

turns-client :
    (replay : Bool) (budget drops : ℕ)
    → turns (expected replay budget drops) drops (attempts_of replay budget drops) 0
      ≡ client replay budget drops
unfolding client attempts_of succeeds turn follow
turns-client true (suc budget) (suc drops) =
    ap (λ n. turns (expected true (suc budget) (suc drops)) (suc drops) n 0)
      (attempts-suc budget drops)
    ∙ turns-cons (expected true (suc budget) (suc drops)) (suc drops)
        (attempts_of true budget drops) 0
    ∙ ap
        (λ t. follow t (
          turns (expected true (suc budget) (suc drops)) (suc drops) (attempts_of true budget drops)
            1))
        (turn-first (expected true (suc budget) (suc drops)) drops)
    ∙ ap (◌∷◌ dropped)
        (turns-suc budget drops (attempts_of true budget drops) 0 ∙ turns-client true budget drops)
turns-client true zero (suc drops) =
    turns-single true 0 (suc drops) dropped (ground arith) (ground arith)
turns-client true budget zero = turns-single true budget 0 answered (ground arith) (ground arith)
turns-client false budget zero = turns-single false budget 0 answered (ground arith) (ground arith)
turns-client false budget (suc drops) =
    turns-single false budget (suc drops) dropped (ground arith) (ground arith)

-- In every mode, with every budget and number of drops, the attempts that the peer waits for by
-- `expected_attempts` end as those of a client that sends again after each drop while the mode
-- lets it and its budget lasts. The client's run has no turn in which the accounting is wrong.
pub serve-client :
    (mode : Mode) (budget drops : ℕ) → serve mode budget drops ≡ client (replays mode) budget drops
unfolding serve expected_attempts
serve-client mode budget drops = turns-client (replays mode) budget drops
