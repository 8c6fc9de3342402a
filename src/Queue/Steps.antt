-- ===== src/Queue/Steps.antt =====
-- Each step of the loop of `_batches` in integration/queued_batches.py keeps within the budgets.
use lean_s.Prelude.{
  ℕ, zero, suc, ◌+◌, ◌-◌, ◌*◌, ◌≤◌, ◌<◌, ◌≡◌, refl, Bool, true, false, ◌||◌, List, [], ◌∷◌, ◌++◌,
  map, arith, ltb, ◌==◌, if◌then◌else◌, length, Bool-cases, inl, inr,
}
use lean_s.Error.{Result, ok}
use lean_s.Queue.Plan.{
  Piece, contribution, asked, answered, alone_fits, Planned, settle, pieces, reserve, singleton,
  divide, flush, select, join, place, start_of, place_each,
}
use lean_s.Queue.Wire.{padding}
use lean_s.Queue.Lengths.{Holds, request_data, reply_data}
use lean_s.Queue.Content.{divided-eq}
use lean_s.Queue.Budgets.{
  Fits, AllFit, AllFit-append, Bounded, spent, returned, flush-Bounded, select-Bounded,
  settled-AllFit,
}

flush-empty :
    (s : Planned)
    → (length (flush s).selected ≡ 0) × ((flush s).request ≡ 12) × ((flush s).response ≡ 14)
unfolding flush
flush-empty s = (refl, refl, refl)

alone_fits-le :
    (pdu : ℕ) (write : Bool) (size : ℕ)
    → alone_fits pdu write size ≡ true
    → (12 + 12 + asked write size ≤ pdu) × (14 + answered write size ≤ pdu)
unfolding alone_fits
alone_fits-le pdu write size h = ground arith

-- The test of `join` whether the pieces selected are enough.
abbrev full : ℕ → Bool → ℕ → Planned → Bool
full pdu write size s =
    length s.selected == 20
    || ltb pdu (s.request + 12 + asked write size)
    || ltb pdu (s.response + answered write size)

full_of_some :
    (pdu : ℕ) (write : Bool) (size request response : ℕ) (selected : List Piece)
    → 12 + 12 * length selected + spent write selected ≡ request
    → 14 + returned write selected ≡ response
    → 12 + 12 + asked write size ≤ pdu
    → 14 + answered write size ≤ pdu
    → (length selected == 20
        || ltb pdu (request + 12 + asked write size)
        || ltb pdu (response + answered write size))
      ≡ true
    → 0 < length selected
unfolding spent returned
full_of_some pdu write size request response [] e f m n h = ground arith
full_of_some pdu write size request response (p ∷ selected) e f m n h = omega arith

join-Bounded :
    (pdu : ℕ) (write : Bool) (piece : Piece) (s : Planned)
    → 28 < pdu
    → alone_fits pdu write piece.size ≡ true
    → Holds piece
    → Bounded pdu write s
    → Bounded pdu write (join pdu write piece s)
unfolding join
join-Bounded pdu write piece s h alone holds b =
    let (m, n) = alone_fits-le pdu write piece.size alone in
    elim (Bool-cases (full pdu write piece.size s)) [
      | inl e ↦
          let some =
            full_of_some pdu write piece.size s.request s.response s.selected b.request_sum
              b.response_sum m n e in
          rw e (select-flushed m n (flush-Bounded pdu write s h b some))
      | inr e ↦ rw e (
          select-Bounded pdu write piece s holds b (ground (arith, b.few)) (ground arith)
            (ground arith))
    ]
  where
    select-flushed :
        12 + 12 + asked write piece.size ≤ pdu
        → 14 + answered write piece.size ≤ pdu
        → Bounded pdu write (flush s)
        → Bounded pdu write (select write piece (flush s))
    select-flushed m n c =
        let (empty, requests, responses) = flush-empty s in
        select-Bounded pdu write piece (flush s) holds c (omega (arith, empty))
          (omega (arith, m, requests)) (omega (arith, n, responses))

single-Fits :
    (pdu : ℕ) (write : Bool) (piece : Piece)
    → 28 < pdu
    → Holds piece
    → piece.size ≤ pdu - reserve write
    → Fits pdu write (piece ∷ [])
unfolding request_data reply_data padding reserve
single-Fits pdu true piece h holds small =
    (omega arith, omega arith, (holds, tt), omega arith, omega arith)
single-Fits pdu false piece h holds small =
    (omega arith, omega arith, (holds, tt), omega arith, omega arith)

singles-AllFit :
    (pdu : ℕ) (write : Bool) (fuel item start size offset : ℕ)
    → 28 < pdu
    → pdu < 8192
    → start + size < 2097152
    → AllFit pdu write (map singleton (pieces fuel (pdu - reserve write) item start size offset))
unfolding pieces singleton
singles-AllFit pdu write zero item start size offset h small fits = tt
singles-AllFit pdu write (suc fuel) item start size offset h small fits =
    let maximum = pdu - reserve write in
    let limited = if ltb maximum (size - offset) then maximum else size - offset in
    let le : limited ≤ pdu - reserve write = ground arith in
    elim (Bool-cases (ltb offset size)) [
      | inl e ↦ rw e (
        single-Fits pdu write
            (record { item = item; start = start + offset; offset = offset; size = limited }) h
            (omega (arith, le), ground arith) le,
        singles-AllFit pdu write fuel item start size (offset + maximum) h small fits,
      )
      | inr e ↦ rw e tt
    ]

-- What one step of the loop comes to: it returns, and the state is within the budgets.
abbrev Placed : ℕ → Bool → Result Planned → Type 0
Placed pdu write called = (t : Planned) × (called ≡ ok t) × Bounded pdu write t

pub divided-Bounded :
    (pdu : ℕ) (write : Bool) (planned : List (List Piece))
    → 28 < pdu
    → AllFit pdu write planned
    → Bounded pdu write (record { batches = planned; selected = []; request = 12; response = 14 })
unfolding spent returned
divided-Bounded pdu write planned h fitting = record {
  fitting = fitting;
  holding = tt;
  few = omega arith;
  request_sum = omega arith;
  response_sum = omega arith;
  request_fits = omega arith;
  response_fits = omega arith;
}

divide-Bounded :
    (pdu : ℕ) (write : Bool) (item start size : ℕ) (s : Planned)
    → 28 < pdu
    → pdu < 8192
    → start + size < 2097152
    → Bounded pdu write s
    → Placed pdu write (divide pdu write item start size s)
unfolding divide
divide-Bounded pdu write item start size s h small fits b =
    let singles = map singleton (pieces size (pdu - reserve write) item start size 0) in
    let planned = settle s.batches s.selected ++ singles in
    (
      record { batches = planned; selected = []; request = 12; response = 14 },
      rw (divided-eq pdu write item start size h) refl,
      divided-Bounded pdu write planned h (
          AllFit-append pdu write (settle s.batches s.selected) singles
            (settled-AllFit pdu write s b)
            (singles-AllFit pdu write size item start size 0 h small fits)),
    )

alone_fits-lt :
    (pdu : ℕ) (write : Bool) (size : ℕ)
    → alone_fits pdu write size ≡ true
    → pdu < 8192
    → size < 8192
unfolding alone_fits asked answered contribution
alone_fits-lt pdu true size h small = ground arith
alone_fits-lt pdu false size h small = ground arith

place-Bounded :
    (pdu : ℕ) (write : Bool) (item start size : ℕ) (s : Planned)
    → 28 < pdu
    → pdu < 8192
    → start + size < 2097152
    → Bounded pdu write s
    → Placed pdu write (place pdu write item start size s)
unfolding place
place-Bounded pdu write item start size s h small fits b =
    elim (Bool-cases (alone_fits pdu write size)) [
      | inl e ↦ rw e (
        join pdu write piece s,
        refl,
        join-Bounded pdu write piece s h e (alone_fits-lt pdu write size e small, omega arith) b,
      )
      | inr e ↦ rw e (divide-Bounded pdu write item start size s h small fits b)
    ]
  where
    piece : Piece
    piece = record { item = item; start = start; offset = 0; size = size }

-- Every size is at most 2 ^ 20.
abbrev pub Sizes : List ℕ → Type 0
Sizes [] = Unit
Sizes (size ∷ sizes) = (size ≤ 1048576) × Sizes sizes

start_of-le : (item : ℕ) (sizes : List ℕ) → start_of item sizes ≤ item * 2048
unfolding start_of
start_of-le item [] = omega arith
start_of-le item (next ∷ sizes) = omega arith

pub place_each-Bounded :
    (pdu : ℕ) (write : Bool) (item : ℕ) (sizes : List ℕ) (s : Planned)
    → 28 < pdu
    → pdu < 8192
    → item + length sizes ≤ 512
    → Sizes sizes
    → Bounded pdu write s
    → Placed pdu write (place_each pdu write item sizes s)
unfolding place_each
place_each-Bounded pdu write item [] s h small count all b = (s, refl, b)
place_each-Bounded pdu write item (size ∷ sizes) s h small count (le, all) b =
    let (t, placed, c) =
      place-Bounded pdu write item (start_of item sizes) size s h small
        (omega (arith, start_of-le item sizes)) b in
    let (u, rest, d) =
      place_each-Bounded pdu write (item + 1) sizes t h small (omega arith) all c in
    (u, rw placed rest, d)
