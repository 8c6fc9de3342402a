-- ===== src/Tests/Connections.antt =====
-- Connections that carry concrete octets.
use lean_s.Prelude.{◌≡◌, ◌↔◌, ◌⊎◌, [], ◌∷◌, ◌++◌, arith}
use lean_s.Error.{ok}
use lean_s.Bytes.{Bytes}
use lean_s.Framing.{receive, send}
use lean_s.Framing.RoundTrip.{receive_iff}
use lean_s.Boundary.{expect_closed, disconnect, resets}
use lean_s.Boundary.Closed.{IsGone, expect_closed_iff}

abbrev arriving : Bytes
arriving = 3 ∷ 0 ∷ 0 ∷ 6 ∷ 8 ∷ 9 ∷ 3 ∷ []

receive_iff_example :
    (receive arriving ≡ ok (8 ∷ 9 ∷ [], 3 ∷ []))
    ↔ ((frame : Bytes) × (send (8 ∷ 9 ∷ []) ≡ ok frame) × (arriving ≡ frame ++ (3 ∷ [])))
receive_iff_example = receive_iff arriving (8 ∷ 9 ∷ []) (3 ∷ []) (
  omega arith,
  (omega arith, (omega arith, (omega arith, (omega arith, (omega arith, (omega arith, tt)))))),
)

expect_closed_iff_example :
    (expect_closed disconnect resets ≡ ok tt)
    ↔ (IsGone resets × ((disconnect ≡ []) ⊎ (disconnect ≡ disconnect)))
expect_closed_iff_example = expect_closed_iff disconnect resets
