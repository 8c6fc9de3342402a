-- ===== src/Reconnect.antt =====
-- The expected outcome of a reconnect, as integration/reconnect_faults.py (`Case`) and
-- integration/generative_reconnect.py (`expected`) each derive it.
pub mod Simulated
use Prim.Native.Nat.{min}
use lean_s.Prelude.{
  ℕ, ◌+◌, ◌*◌, Bool, true, false, not, ◌&&◌, List, [], ◌++◌, ltb, ◌==◌, if◌then◌else◌, replicate,
}

pub data Mode : Type 0 where
  read raw write multi : Mode

pub data Fault : Type 0 where
  cotp_eof setup_eof cotp_invalid setup_invalid setup_reject setup_shrink deadline : Fault

pub record Case : Type 0 where
  pub mode : Mode
  pub fault : Fault
  pub budget : ℕ
  pub failures : ℕ

-- fault.endswith("eof")
unfoldable pub ends_with_eof : Fault → Bool
ends_with_eof cotp_eof = true
ends_with_eof setup_eof = true
ends_with_eof cotp_invalid = false
ends_with_eof setup_invalid = false
ends_with_eof setup_reject = false
ends_with_eof setup_shrink = false
ends_with_eof deadline = false

unfoldable pub succeeds : Case → Bool
succeeds test = ends_with_eof test.fault && ltb test.failures test.budget

unfoldable pub sessions : Case → ℕ
sessions test =
    if test.budget == 0
    then 1
    else if not (ends_with_eof test.fault)
    then 2
    else 1 + (if succeeds test then test.failures + 1 else test.budget)

-- an entry of `write_chronology`
pub data Write : Type 0 where
  replayed_unknown pending acknowledged : Write

pub record Expected : Type 0 where
  pub recovered : Bool
  pub connections : ℕ
  pub sends : ℕ
  pub write_attempts : ℕ
  pub acknowledged : ℕ
  pub pending_uncertain : ℕ
  pub replayed_uncertain : ℕ
  pub write_chronology : List Write

-- fault in TRANSIENT
unfoldable pub is_transient : Fault → Bool
is_transient cotp_eof = true
is_transient setup_eof = true
is_transient cotp_invalid = false
is_transient setup_invalid = false
is_transient setup_reject = false
is_transient setup_shrink = false
is_transient deadline = false

-- int(flag)
unfoldable pub counted : Bool → ℕ
counted true = 1
counted false = 0

unfoldable pub width : Mode → ℕ
width read = 0
width raw = 0
width write = 1
width multi = 2

unfoldable pub reconnects : Case → ℕ
reconnects test =
    if test.budget == 0
    then 0
    else if is_transient test.fault
    then min test.budget (test.failures + 1)
    else 1

unfoldable pub expected : Case → Expected
expected test =
    let recovered = is_transient test.fault && ltb test.failures test.budget in
    let sends = 1 + counted recovered in
    let replayed = ltb 0 test.budget in
    let original = if replayed then replayed_unknown else pending in
    let first = replicate (width test.mode) original in
    record {
      recovered = recovered;
      connections = 1 + reconnects test;
      sends = sends;
      write_attempts = width test.mode * sends;
      acknowledged = width test.mode * counted recovered;
      pending_uncertain = width test.mode * counted (not replayed);
      replayed_uncertain = width test.mode * counted replayed;
      write_chronology =
          if recovered then first ++ replicate (width test.mode) acknowledged else first;
    }
