-- ===== src/Queue/Budgets.antt =====
-- The batches that `_batches` of integration/queued_batches.py plans keep within the PDU.
use lean_s.Prelude.{
  ℕ, ◌+◌, ◌*◌, ◌≤◌, ◌<◌, ◌≡◌, Bool, true, false, List, [], ◌∷◌, ◌++◌, arith, length, length-append,
}
use lean_s.Queue.Plan.{Piece, contribution, asked, answered, Planned, settle, flush, select}
use lean_s.Queue.Wire.{padding}
use lean_s.Queue.Lengths.{Holds, Every, item_size, request_data, reply_data}

-- A batch of 1 to 20 pieces whose request and reply are within the PDU.
abbrev pub Fits : ℕ → Bool → List Piece → Type 0
Fits pdu write batch =
    (0 < length batch)
    × (length batch ≤ 20)
    × Every batch
    × (12 + 12 * length batch + request_data write batch ≤ pdu)
    × (14 + reply_data write batch ≤ pdu)

abbrev pub AllFit : ℕ → Bool → List (List Piece) → Type 0
AllFit pdu write [] = Unit
AllFit pdu write (batch ∷ rest) = Fits pdu write batch × AllFit pdu write rest

-- what the planner reserves for the data of a request, and for that of a reply
unfoldable pub spent : Bool → List Piece → ℕ
spent write [] = 0
spent write (piece ∷ rest) = asked write piece.size + spent write rest

unfoldable pub returned : Bool → List Piece → ℕ
returned write [] = 0
returned write (piece ∷ rest) = answered write piece.size + returned write rest

-- The state of the loop accounts for the pieces selected, and they are within the PDU.
pub record Bounded (pdu : ℕ) (write : Bool) (s : Planned) : Type 0 where
  pub fitting : AllFit pdu write s.batches
  pub holding : Every s.selected
  pub few : length s.selected ≤ 20
  pub request_sum : 12 + 12 * length s.selected + spent write s.selected ≡ s.request
  pub response_sum : 14 + returned write s.selected ≡ s.response
  pub request_fits : s.request ≤ pdu
  pub response_fits : s.response ≤ pdu

pub AllFit-append :
    (pdu : ℕ) (write : Bool) (a b : List (List Piece))
    → AllFit pdu write a
    → AllFit pdu write b
    → AllFit pdu write (a ++ b)
AllFit-append pdu write [] b h k = k
AllFit-append pdu write (x ∷ a) b (h, hs) k = (h, AllFit-append pdu write a b hs k)

Every-snoc : (a : List Piece) (piece : Piece) → Every a → Holds piece → Every (a ++ (piece ∷ []))
Every-snoc [] piece h k = (k, tt)
Every-snoc (x ∷ a) piece (h, hs) k = (h, Every-snoc a piece hs k)

spent-snoc :
    (write : Bool) (a : List Piece) (piece : Piece)
    → spent write (a ++ (piece ∷ [])) ≡ spent write a + asked write piece.size
unfolding spent
spent-snoc write [] piece = omega arith
spent-snoc write (x ∷ a) piece = omega (arith, spent-snoc write a piece)

returned-snoc :
    (write : Bool) (a : List Piece) (piece : Piece)
    → returned write (a ++ (piece ∷ [])) ≡ returned write a + answered write piece.size
unfolding returned
returned-snoc write [] piece = omega arith
returned-snoc write (x ∷ a) piece = omega (arith, returned-snoc write a piece)

item_size-le : (piece : Piece) (rest : List Piece) → item_size piece rest ≤ contribution piece.size
unfolding padding contribution
item_size-le piece [] = omega arith
item_size-le piece (next ∷ rest) = ground arith

request_data-le : (write : Bool) (batch : List Piece) → request_data write batch ≤ spent write batch
unfolding request_data spent asked
request_data-le write [] = omega arith
request_data-le true (piece ∷ rest) =
    omega (arith, item_size-le piece rest, request_data-le true rest)
request_data-le false (piece ∷ rest) = omega (arith, request_data-le false rest)

reply_data-le : (write : Bool) (batch : List Piece) → reply_data write batch ≤ returned write batch
unfolding reply_data returned answered
reply_data-le write [] = omega arith
reply_data-le true (piece ∷ rest) = omega (arith, reply_data-le true rest)
reply_data-le false (piece ∷ rest) =
    omega (arith, item_size-le piece rest, reply_data-le false rest)

selected-Fits :
    (pdu : ℕ) (write : Bool) (s : Planned)
    → Bounded pdu write s
    → 0 < length s.selected
    → Fits pdu write s.selected
selected-Fits pdu write s b some = (
  some,
  b.few,
  b.holding,
  omega (arith, request_data-le write s.selected, b.request_sum, b.request_fits),
  omega (arith, reply_data-le write s.selected, b.response_sum, b.response_fits),
)

pub flush-Bounded :
    (pdu : ℕ) (write : Bool) (s : Planned)
    → 28 < pdu
    → Bounded pdu write s
    → 0 < length s.selected
    → Bounded pdu write (flush s)
unfolding flush spent returned
flush-Bounded pdu write s h b some = record {
  fitting =
      AllFit-append pdu write s.batches (s.selected ∷ []) b.fitting
        (selected-Fits pdu write s b some, tt);
  holding = tt;
  few = omega arith;
  request_sum = omega arith;
  response_sum = omega arith;
  request_fits = omega (arith, h);
  response_fits = omega (arith, h);
}

pub select-Bounded :
    (pdu : ℕ) (write : Bool) (piece : Piece) (s : Planned)
    → Holds piece
    → Bounded pdu write s
    → length s.selected < 20
    → s.request + 12 + asked write piece.size ≤ pdu
    → s.response + answered write piece.size ≤ pdu
    → Bounded pdu write (select write piece s)
unfolding select
select-Bounded pdu write piece s holds b room asks answers = record {
  fitting = b.fitting;
  holding = Every-snoc s.selected piece b.holding holds;
  few = omega (arith, length-append s.selected (piece ∷ []));
  request_sum = omega (
    arith,
    length-append s.selected (piece ∷ []),
    spent-snoc write s.selected piece,
    b.request_sum,
  );
  response_sum = omega (arith, returned-snoc write s.selected piece, b.response_sum);
  request_fits = omega arith;
  response_fits = omega arith;
}

settle-AllFit :
    (pdu : ℕ) (write : Bool) (planned : List (List Piece)) (selected : List Piece)
    → AllFit pdu write planned
    → (0 < length selected → Fits pdu write selected)
    → AllFit pdu write (settle planned selected)
unfolding settle
settle-AllFit pdu write planned [] h k = h
settle-AllFit pdu write planned (p ∷ selected) h k =
    AllFit-append pdu write planned ((p ∷ selected) ∷ []) h (k (omega arith), tt)

pub settled-AllFit :
    (pdu : ℕ) (write : Bool) (s : Planned)
    → Bounded pdu write s
    → AllFit pdu write (settle s.batches s.selected)
settled-AllFit pdu write s b =
    settle-AllFit pdu write s.batches s.selected b.fitting (selected-Fits pdu write s b)
