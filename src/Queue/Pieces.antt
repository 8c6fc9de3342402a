-- ===== src/Queue/Pieces.antt =====
-- The octets that pieces and batches of integration/queued_batches.py carry.
use lean_s.Prelude.{
  ℕ, zero, suc, ◌+◌, ◌-◌, ◌*◌, ◌%◌, ◌≤◌, ◌<◌, ◌≡◌, refl, sym, ap, ◌∙◌, List, [], ◌∷◌, ◌++◌, map,
  append-nil, append_assoc, arith, ltb, ltb→lt, if◌then◌else◌, Bool-cases, inl, inr,
}
use lean_s.Bytes.{Bytes}
use lean_s.Queue.Plan.{Piece, octets, payload, Planned, settle, pieces, singleton}

-- the payloads of pieces, one behind the other
unfoldable pub payloads : List Piece → Bytes
payloads [] = []
payloads (piece ∷ rest) = payload piece ++ payloads rest

-- the payloads of batches, one behind the other
unfoldable pub carried : List (List Piece) → Bytes
carried [] = []
carried (batch ∷ rest) = payloads batch ++ carried rest

-- the whole items from an index on, one behind the other
unfoldable pub items_from : ℕ → List ℕ → Bytes
items_from item [] = []
items_from item (size ∷ sizes) = octets item 0 size ++ items_from (item + 1) sizes

-- what a state of the loop has put into batches so far
unfoldable pub content : Planned → Bytes
content s = carried s.batches ++ payloads s.selected

octets-append :
    (item offset m n : ℕ)
    → octets item offset m ++ octets item (offset + m) n ≡ octets item offset (m + n)
unfolding octets
octets-append item offset zero n =
    let e : offset + 0 ≡ offset = omega arith in let f : 0 + n ≡ n = omega arith in rw (e, f) refl
octets-append item offset (suc m) n =
    let e : offset + suc m ≡ suc offset + m = omega arith in
    let f : suc m + n ≡ suc (m + n) = omega arith in
    rw (e, f)
      (ap (◌∷◌ ((item * 29 + offset * 37 + 11) % 256)) (octets-append item (suc offset) m n))

pub payloads-append : (a b : List Piece) → payloads (a ++ b) ≡ payloads a ++ payloads b
unfolding payloads
payloads-append [] b = refl
payloads-append (p ∷ a) b =
    ap (◌++◌ (payload p)) (payloads-append a b)
    ∙ sym (append_assoc (payload p) (payloads a) (payloads b))

pub carried-append : (a b : List (List Piece)) → carried (a ++ b) ≡ carried a ++ carried b
unfolding carried
carried-append [] b = refl
carried-append (p ∷ a) b =
    ap (◌++◌ (payloads p)) (carried-append a b)
    ∙ sym (append_assoc (payloads p) (carried a) (carried b))

octets-zero : (item offset : ℕ) → [] ≡ octets item offset 0
unfolding octets
octets-zero item offset = refl

-- One piece and what is left behind it.
octets-limited :
    (item offset maximum size : ℕ)
    → octets item offset (if ltb maximum (size - offset) then maximum else size - offset)
        ++ octets item (offset + maximum) (size - (offset + maximum))
      ≡ octets item offset (size - offset)
unfolding octets
octets-limited item offset maximum size = elim (Bool-cases (ltb maximum (size - offset))) [
  | inl e ↦
      let f : maximum + (size - (offset + maximum)) ≡ size - offset =
        omega (arith, ltb→lt maximum (size - offset) e) in
      rw e (octets-append item offset maximum (size - (offset + maximum)))
      ∙ ap (octets item offset) f
  | inr e ↦
      let f : size - (offset + maximum) ≡ 0 = ground arith in
      rw (e, f) (append-nil (octets item offset (size - offset)))
]

-- The pieces of an item carry it from the offset on, where each holds an octet at least.
pub pieces-payloads :
    (fuel maximum item start size offset : ℕ)
    → 0 < maximum
    → size - offset ≤ fuel
    → payloads (pieces fuel maximum item start size offset) ≡ octets item offset (size - offset)
unfolding payloads pieces payload
pieces-payloads zero maximum item start size offset hm hf =
    let e : size - offset ≡ 0 = omega arith in rw e (octets-zero item offset)
pieces-payloads (suc fuel) maximum item start size offset hm hf =
    elim (Bool-cases (ltb offset size)) [
      | inl e ↦ rw e (
          ap
            (◌++◌
              (octets item offset (if ltb maximum (size - offset) then maximum else size - offset)))
            (pieces-payloads fuel maximum item start size (offset + maximum) hm
              (omega (arith, ltb→lt offset size e)))
          ∙ octets-limited item offset maximum size)
      | inr e ↦ let f : size - offset ≡ 0 = ground arith in rw (e, f) (octets-zero item offset)
    ]

pub carried-settle :
    (planned : List (List Piece)) (selected : List Piece)
    → carried (settle planned selected) ≡ carried planned ++ payloads selected
unfolding settle carried payloads
carried-settle planned [] = sym (append-nil (carried planned))
carried-settle planned (p ∷ selected) =
    carried-append planned ((p ∷ selected) ∷ [])
    ∙ ap (◌++◌ (carried planned)) (append-nil (payload p ++ payloads selected))

pub carried-singletons : (ps : List Piece) → carried (map singleton ps) ≡ payloads ps
unfolding carried singleton payloads
carried-singletons [] = refl
carried-singletons (p ∷ ps) = rw (append-nil, carried-singletons ps) refl
