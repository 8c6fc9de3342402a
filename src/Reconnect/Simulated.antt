-- ===== src/Reconnect/Simulated.antt =====
-- The two derivations of a reconnect's outcome against a run of the reconnects one by one.
use Prim.Native.Nat.{min}
use lean_s.Prelude.{
  ℕ, zero, suc, ◌+◌, ◌*◌, ◌≡◌, refl, sym, ap, ◌∙◌, Bool, true, false, not, ◌&&◌, ◌++◌, arith, ltb,
  ◌==◌, if◌then◌else◌, length, length-append, length-replicate, replicate,
}
use lean_s.Reconnect.{
  Case, Fault, ends_with_eof, succeeds, sessions, Write, replayed_unknown, pending, acknowledged,
  is_transient, counted, width, reconnects, expected, cotp_eof, setup_eof, cotp_invalid,
  setup_invalid, setup_reject, setup_shrink, deadline,
}

-- The reconnects of a client with a budget, against a peer that fails so often: how many there are,
-- and whether one of them is set up. A fault that is not transient ends them at the first.
unfoldable pub attempt : Bool → ℕ → ℕ → ℕ × Bool
attempt transient zero failures = (0, false)
attempt false (suc budget) failures = (1, false)
attempt true (suc budget) zero = (1, true)
attempt true (suc budget) (suc failures) =
    let rest = attempt true budget failures in (1 + rest.0, rest.1)

same_faults : (fault : Fault) → is_transient fault ≡ ends_with_eof fault
unfolding is_transient ends_with_eof
same_faults cotp_eof = refl
same_faults setup_eof = refl
same_faults cotp_invalid = refl
same_faults setup_invalid = refl
same_faults setup_reject = refl
same_faults setup_shrink = refl
same_faults deadline = refl

attempt_lem :
    (transient : Bool) (budget failures : ℕ)
    → ((attempt transient budget failures).0
        ≡ (if budget == 0 then 0 else if transient then min budget (failures + 1) else 1))
      × ((attempt transient budget failures).1 ≡ transient && ltb failures budget)
unfolding attempt
attempt_lem false zero failures = (refl, refl)
attempt_lem true zero failures = (refl, ground arith)
attempt_lem false (suc budget) failures = (ground arith, refl)
attempt_lem true (suc budget) zero = (ground arith, ground arith)
attempt_lem true (suc budget) (suc failures) =
    let (count, recovered) = attempt_lem true budget failures in (ground arith, ground arith)

-- the reconnects that a case runs through
abbrev pub simulated : Case → ℕ × Bool
simulated test = attempt (ends_with_eof test.fault) test.budget test.failures

sessions-simulated :
    (transient : Bool) (budget failures : ℕ)
    → (if budget == 0
        then 1
        else if not transient
        then 2
        else 1 + (if transient && ltb failures budget then failures + 1 else budget))
      ≡ 1 + (if budget == 0 then 0 else if transient then min budget (failures + 1) else 1)
sessions-simulated true budget failures = ground arith
sessions-simulated false budget failures = ground arith

attempts-sum :
    (n : ℕ) (replayed won : Bool)
    → n * (1 + counted won) ≡ n * counted won + n * counted (not replayed) + n * counted replayed
unfolding counted
attempts-sum n true true = omega arith
attempts-sum n true false = omega arith
attempts-sum n false true = omega arith
attempts-sum n false false = omega arith

chronology-length :
    (n : ℕ) (original : Write) (won : Bool)
    → length
        (if won then replicate n original ++ replicate n acknowledged else replicate n original)
      ≡ n * (1 + counted won)
unfolding counted
chronology-length n original true = omega (
  arith,
  length-append (replicate n original) (replicate n acknowledged),
  length-replicate n original,
  length-replicate n acknowledged,
)
chronology-length n original false = omega (arith, length-replicate n original)

-- In every case the two derivations agree with each other and with the run of the reconnects: on
-- the recovery, and on the connections, of which one is the first. The write attempts are as many
-- as the acknowledged, the pending and the replayed ones together, and as the chronology is long.
pub expected-simulated :
    (test : Case)
    → ((expected test).recovered ≡ (simulated test).1)
      × (succeeds test ≡ (simulated test).1)
      × ((expected test).connections ≡ 1 + (simulated test).0)
      × (sessions test ≡ 1 + (simulated test).0)
      × ((expected test).write_attempts
          ≡ (expected test).acknowledged
            + (expected test).pending_uncertain
            + (expected test).replayed_uncertain)
      × (length (expected test).write_chronology ≡ (expected test).write_attempts)
unfolding expected reconnects succeeds sessions counted
expected-simulated test =
    let (count, recovered) = attempt_lem (ends_with_eof test.fault) test.budget test.failures in
    let same = same_faults test.fault in
    let won = is_transient test.fault && ltb test.failures test.budget in
    (
      ap (λ k. k && ltb test.failures test.budget) same ∙ sym recovered,
      sym recovered,
      ap (◌+◌ 1) (
          ap
            (λ k.
              if test.budget == 0 then 0 else if k then min test.budget (test.failures + 1) else 1)
            same
          ∙ sym count),
      sessions-simulated (ends_with_eof test.fault) test.budget test.failures
          ∙ ap (◌+◌ 1) (sym count),
      attempts-sum (width test.mode) (ltb 0 test.budget) won,
      chronology-length (width test.mode) (if ltb 0 test.budget then replayed_unknown else pending)
          won,
    )
