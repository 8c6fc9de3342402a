-- ===== src/Tests/Batches.antt =====
-- The planner of batches at concrete sizes.
use lean_s.Prelude.{ℕ, ◌≡◌, refl, true, false, List, [], ◌∷◌, arith}
use lean_s.Error.{ok}
use lean_s.Queue.Plan.{Piece, batches}
use lean_s.Queue.Pieces.{carried, items_from}
use lean_s.Queue.Content.{batches-carried}
use lean_s.Queue.Steps.{Sizes}
use lean_s.Bytes.{Bytes, IsBytes}
use lean_s.Queue.Wire.{opening, piece_address, wire_items, wire, check}
use lean_s.Queue.Accepted.{check-injective}
use lean_s.Queue.Limits.{AllSent, batches-AllSent}

-- two small items, one that no PDU of 240 octets holds, and one behind it
abbrev sizes : List ℕ
sizes = 3 ∷ 2 ∷ 300 ∷ 1 ∷ []

sizes-Sizes : Sizes sizes
sizes-Sizes = (omega arith, (omega arith, (omega arith, (omega arith, tt))))

batches-carried_example :
    (planned : List (List Piece)) × (batches sizes 240 true ≡ ok planned)
    × (carried planned ≡ items_from 0 sizes)
batches-carried_example = batches-carried sizes 240 true (omega arith)

batches-AllSent_example :
    (planned : List (List Piece)) × (batches sizes 240 false ≡ ok planned)
    × AllSent 240 false 7 planned
batches-AllSent_example =
    batches-AllSent sizes 240 false 7 (omega arith) (omega arith) (omega arith) sizes-Sizes
      (omega arith)

abbrev one_octet : List Piece
one_octet = record { item = 0; start = 0; offset = 0; size = 1 } ∷ []

-- the read of one octet, with reference 7
abbrev one_request : Bytes
one_request =
    50 ∷ 1 ∷ 0 ∷ 0 ∷ 0 ∷ 7 ∷ 0 ∷ 14 ∷ 0 ∷ 0 ∷ 4 ∷ 1 ∷ 18 ∷ 10 ∷ 16 ∷ 2 ∷ 0 ∷ 1 ∷ 0 ∷ 1 ∷ 132 ∷ 0 ∷ 0
    ∷ 0 ∷ []

one_request_checked : check one_request one_octet 240 false ≡ ok 7
unfolding check wire wire_items opening piece_address
one_request_checked = refl

one_request-IsBytes : IsBytes one_request
one_request-IsBytes = (
  omega arith,
  (
    omega arith,
    (
      omega arith,
      (
        omega arith,
        (
          omega arith,
          (
            omega arith,
            (
              omega arith,
              (
                omega arith,
                (
                  omega arith,
                  (
                    omega arith,
                    (
                      omega arith,
                      (
                        omega arith,
                        (
                          omega arith,
                          (
                            omega arith,
                            (
                              omega arith,
                              (
                                omega arith,
                                (
                                  omega arith,
                                  (
                                    omega arith,
                                    (
                                      omega arith,
                                      (
                                        omega arith,
                                        (
                                          omega arith,
                                          (omega arith, (omega arith, (omega arith, tt))),
                                        ),
                                      ),
                                    ),
                                  ),
                                ),
                              ),
                            ),
                          ),
                        ),
                      ),
                    ),
                  ),
                ),
              ),
            ),
          ),
        ),
      ),
    ),
  ),
)

check-injective_example : one_request ≡ one_request
check-injective_example =
    check-injective one_request one_request one_octet 240 7 false one_request-IsBytes
      one_request-IsBytes one_request_checked one_request_checked
