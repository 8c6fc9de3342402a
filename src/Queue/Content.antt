-- ===== src/Queue/Content.antt =====
-- The batches that `_batches` of integration/queued_batches.py plans carry the items in order.
use lean_s.Prelude.{
  ℕ, ◌+◌, ◌-◌, ◌<◌, ◌≡◌, refl, sym, ap, ◌∙◌, Bool, true, false, List, [], ◌∷◌, ◌++◌, map,
  append-nil, append_assoc, arith, if◌then◌else◌, Bool-cases, inl, inr,
}
use lean_s.Error.{Result, ok}
use lean_s.Bytes.{Bytes}
use lean_s.Queue.Plan.{
  Piece, octets, payload, alone_fits, Planned, settle, pieces, reserve, divided, singleton, divide,
  flush, select, join, place, start_of, place_each, batches,
}
use lean_s.Queue.Pieces.{
  content, payloads-append, carried-append, pieces-payloads, carried-settle, carried-singletons,
  payloads, carried, items_from,
}

flush-content : (s : Planned) → content (flush s) ≡ content s
unfolding content flush carried payloads
flush-content s =
    append-nil _
    ∙ carried-append s.batches (s.selected ∷ [])
    ∙ ap (◌++◌ (carried s.batches)) (append-nil (payloads s.selected))

payloads-singleton : (piece : Piece) → payloads (piece ∷ []) ≡ payload piece
unfolding payloads
payloads-singleton piece = append-nil (payload piece)

select-content :
    (write : Bool) (piece : Piece) (s : Planned)
    → content (select write piece s) ≡ content s ++ payload piece
unfolding content select
select-content write piece s =
    ap (◌++◌ (carried s.batches)) (
      payloads-append s.selected (piece ∷ [])
      ∙ ap (◌++◌ (payloads s.selected)) (payloads-singleton piece))
    ∙ sym (append_assoc (carried s.batches) (payloads s.selected) (payload piece))

payload-eq : (piece : Piece) → payload piece ≡ octets piece.item piece.offset piece.size
unfolding payload
payload-eq piece = refl

content-eq : (s : Planned) → carried s.batches ++ payloads s.selected ≡ content s
unfolding content
content-eq s = refl

content-start :
    (request response : ℕ)
    → content (record { batches = []; selected = []; request = request; response = response }) ≡ []
unfolding content carried payloads
content-start request response = refl

join-content :
    (pdu : ℕ) (write : Bool) (piece : Piece) (s : Planned)
    → content (join pdu write piece s) ≡ content s ++ payload piece
unfolding join
join-content pdu write piece s =
    select-content write piece _ ∙ ap (λ k. k ++ payload piece) (flushed _)
  where
    flushed : (full : Bool) → content (if full then flush s else s) ≡ content s
    flushed true = flush-content s
    flushed false = refl

pub divided-eq :
    (pdu : ℕ) (write : Bool) (item start size : ℕ)
    → 28 < pdu
    → divided pdu write item start size ≡ ok (pieces size (pdu - reserve write) item start size 0)
unfolding divided reserve
divided-eq pdu true item start size h = ground arith
divided-eq pdu false item start size h = ground arith

reserve-lt : (pdu : ℕ) (write : Bool) → 28 < pdu → 0 < pdu - reserve write
unfolding reserve
reserve-lt pdu true h = omega arith
reserve-lt pdu false h = omega arith

content-divided :
    (s : Planned) (singles : List Piece)
    → content (record {
      batches = settle s.batches s.selected ++ map singleton singles;
      selected = [];
      request = 12;
      response = 14;
    })
      ≡ content s ++ payloads singles
unfolding content payloads
content-divided s singles =
    append-nil (carried (settle s.batches s.selected ++ map singleton singles))
    ∙ carried-append (settle s.batches s.selected) (map singleton singles)
    ∙ rw (carried-settle s.batches s.selected, carried-singletons singles) refl

-- What one step of the loop comes to: it returns, and it has put the item behind the others.
abbrev Placed : Result Planned → Bytes → Type 0
Placed called expected = (t : Planned) × (called ≡ ok t) × (content t ≡ expected)

divide-content :
    (pdu : ℕ) (write : Bool) (item start size : ℕ) (s : Planned)
    → 28 < pdu
    → Placed (divide pdu write item start size s) (content s ++ octets item 0 size)
unfolding divide
divide-content pdu write item start size s h =
    let maximum = pdu - reserve write in
    let f : size - 0 ≡ size = omega arith in
    let singles = pieces size maximum item start size 0 in
    (
      record {
        batches = settle s.batches s.selected ++ map singleton singles;
        selected = [];
        request = 12;
        response = 14;
      },
      rw (divided-eq pdu write item start size h) refl,
      content-divided s singles
          ∙ ap (◌++◌ (content s)) (
              pieces-payloads size maximum item start size 0 (reserve-lt pdu write h) (omega arith)
              ∙ ap (octets item 0) f),
    )

place-content :
    (pdu : ℕ) (write : Bool) (item start size : ℕ) (s : Planned)
    → 28 < pdu
    → Placed (place pdu write item start size s) (content s ++ octets item 0 size)
unfolding place
place-content pdu write item start size s h = elim (Bool-cases (alone_fits pdu write size)) [
  | inl e ↦ rw e (_, refl, join-whole)
  | inr e ↦ rw e (divide-content pdu write item start size s h)
]
  where
    piece : Piece
    piece = record { item = item; start = start; offset = 0; size = size }

    join-whole : content (join pdu write piece s) ≡ content s ++ octets item 0 size
    join-whole = join-content pdu write piece s ∙ ap (◌++◌ (content s)) (payload-eq piece)

place_each-content :
    (pdu : ℕ) (write : Bool) (item : ℕ) (sizes : List ℕ) (s : Planned)
    → 28 < pdu
    → Placed (place_each pdu write item sizes s) (content s ++ items_from item sizes)
unfolding place_each items_from
place_each-content pdu write item [] s h = (s, refl, sym (append-nil (content s)))
place_each-content pdu write item (size ∷ sizes) s h =
    let (t, placed, e) = place-content pdu write item (start_of item sizes) size s h in
    let (u, rest, f) = place_each-content pdu write (item + 1) sizes t h in
    (
      u,
      rw placed rest,
      f
          ∙ ap (λ k. k ++ items_from (item + 1) sizes) e
          ∙ append_assoc (content s) (octets item 0 size) (items_from (item + 1) sizes),
    )

-- With a PDU of more than 28 octets, `_batches` returns for any list of item sizes, and the
-- payloads of the pieces that it plans, batch by batch, are the whole items in the callers' order:
-- no octet is left out, sent twice or moved.
pub batches-carried :
    (sizes : List ℕ) (pdu : ℕ) (write : Bool)
    → 28 < pdu
    → (planned : List (List Piece)) × (batches sizes pdu write ≡ ok planned)
      × (carried planned ≡ items_from 0 sizes)
unfolding batches
batches-carried sizes pdu write h =
    let (s, placed, e) = place_each-content pdu write 0 sizes start h in
    (
      settle s.batches s.selected,
      rw placed refl,
      carried-settle s.batches s.selected ∙ content-eq s ∙ e ∙ nothing,
    )
  where
    start : Planned
    start = record { batches = []; selected = []; request = 12; response = 14 }

    nothing : content start ++ items_from 0 sizes ≡ items_from 0 sizes
    nothing = ap (λ k. k ++ items_from 0 sizes) (content-start 12 14)
