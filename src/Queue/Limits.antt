-- ===== src/Queue/Limits.antt =====
-- Every PDU of integration/queued_batches.py for a planned batch is within the negotiated length.
use lean_s.Prelude.{ℕ, ◌≤◌, ◌<◌, ◌≡◌, refl, Bool, List, [], ◌∷◌, arith, length}
use lean_s.Error.{ok}
use lean_s.Bytes.{Bytes}
use lean_s.Queue.Plan.{Piece, settle, batches}
use lean_s.Queue.Wire.{wire, check, reply}
use lean_s.Queue.Lengths.{wire-eq, check-wire, reply-eq}
use lean_s.Queue.Budgets.{Fits, AllFit, settled-AllFit}
use lean_s.Queue.Steps.{divided-Bounded, Sizes, place_each-Bounded}

-- The request and the reply of one batch are built and are within the PDU, and the check passes
-- the request.
abbrev pub Sent : ℕ → Bool → ℕ → List Piece → Type 0
Sent pdu write reference batch =
    (0 < length batch)
    × (length batch ≤ 20)
    × ((request : Bytes) × (wire batch write ≡ ok request)
        × (length request ≤ pdu)
        × (check request batch pdu write ≡ ok 0))
    × ((answer : Bytes) × (reply reference batch write ≡ ok answer) × (length answer ≤ pdu))

abbrev pub AllSent : ℕ → Bool → ℕ → List (List Piece) → Type 0
AllSent pdu write reference [] = Unit
AllSent pdu write reference (batch ∷ rest) =
    Sent pdu write reference batch × AllSent pdu write reference rest

Fits-Sent :
    (pdu : ℕ) (write : Bool) (reference : ℕ) (batch : List Piece)
    → pdu < 8192
    → reference < 65536
    → Fits pdu write batch
    → Sent pdu write reference batch
Fits-Sent pdu write reference batch small hr (some, few, holds, asks, answers) =
    let (rest, e, n) = wire-eq write batch pdu holds few asks small in
    let (answer, f, m) = reply-eq reference write batch pdu hr holds few answers small in
    (
      some,
      few,
      (0x32 ∷ 1 ∷ 0 ∷ 0 ∷ 0 ∷ 0 ∷ rest, e, omega (arith, n), check-wire write batch pdu rest e n),
      (answer, f, m),
    )

AllFit-AllSent :
    (pdu : ℕ) (write : Bool) (reference : ℕ) (planned : List (List Piece))
    → pdu < 8192
    → reference < 65536
    → AllFit pdu write planned
    → AllSent pdu write reference planned
AllFit-AllSent pdu write reference [] small hr h = tt
AllFit-AllSent pdu write reference (batch ∷ rest) small hr (h, hs) = (
  Fits-Sent pdu write reference batch small hr h,
  AllFit-AllSent pdu write reference rest small hr hs,
)

-- For at most 512 items of at most 2 ^ 20 octets, a PDU of 29 to 8191 octets and a 16-bit
-- reference, `_batches` returns, and each batch has 1 to 20 pieces. For each, `_wire` builds a
-- request and `_reply` an answer, neither is longer than the PDU, and `_check` accepts the request.
pub batches-AllSent :
    (sizes : List ℕ) (pdu : ℕ) (write : Bool) (reference : ℕ)
    → 28 < pdu
    → pdu < 8192
    → length sizes ≤ 512
    → Sizes sizes
    → reference < 65536
    → (planned : List (List Piece)) × (batches sizes pdu write ≡ ok planned)
      × AllSent pdu write reference planned
unfolding batches
batches-AllSent sizes pdu write reference h small count all hr =
    let (s, placed, b) =
      place_each-Bounded pdu write 0 sizes
        (record { batches = []; selected = []; request = 12; response = 14 }) h small
        (omega (arith, count)) all (divided-Bounded pdu write [] h tt) in
    (
      settle s.batches s.selected,
      rw placed refl,
      AllFit-AllSent pdu write reference (settle s.batches s.selected) small hr
          (settled-AllFit pdu write s b),
    )
