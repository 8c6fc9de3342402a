-- ===== src/Framing/RoundTrip.antt =====
-- Frames that are sent against those that are received.
use lean_s.Prelude.{
  ℕ, zero, suc, ◌+◌, ◌-◌, ◌/◌, ◌%◌, ◌*◌, ◌<◌, ◌≤◌, ◌↔◌, ◌≡◌, refl, sym, ap, ◌∙◌, false, not, ◌||◌,
  [], ◌∷◌, ◌++◌, arith, ltb, ◌==◌, length, Bool-cases, inl, inr,
}
use lean_s.Error.{ok, runtime_error, >>=-eq-ok, ok_inj, raise_if}
use lean_s.Bytes.{Bytes, IsBytes}
use lean_s.Framing.{exact, receive, send}

exact-append : (xs ys : Bytes) → exact (length xs) (xs ++ ys) ≡ ok (xs, ys)
unfolding exact
exact-append [] ys = refl
exact-append (x ∷ xs) ys = rw (exact-append xs ys) refl

exact-parts :
    (n : ℕ) (octets : Bytes) (r : Bytes × Bytes)
    → exact n octets ≡ ok r
    → (octets ≡ r.0 ++ r.1) × (length r.0 ≡ n)
unfolding exact
exact-parts zero octets r h = rw (← ok_inj h) (refl, refl)
exact-parts (suc n) [] r h = cc
exact-parts (suc n) (b ∷ octets) r h =
    let (rest, e, last) = >>=-eq-ok (exact n octets) _ h in
    let (whole, count) = exact-parts n octets rest e in
    rw (← ok_inj last) (ap (◌∷◌ b) whole, ap suc count)

send-frame :
    (payload : Bytes)
    → length payload + 4 < 65536
    → send payload ≡ ok (3 ∷ 0 ∷ (length payload + 4) / 256 ∷ (length payload + 4) % 256 ∷ payload)
unfolding send
send-frame payload h = ground arith

receive-frame :
    (payload rest : Bytes)
    → length payload + 4 < 65536
    → receive (3 ∷ 0 ∷ (length payload + 4) / 256 ∷ (length payload + 4) % 256 ∷ (payload ++ rest))
      ≡ ok (payload, rest)
unfolding receive exact
receive-frame payload rest h =
    let size : (length payload + 4) / 256 * 256 + (length payload + 4) % 256 ≡ length payload + 4 =
      omega arith in
    let long : ltb (length payload + 4) 4 ≡ false = ground arith in
    let cut : length payload + 4 - 4 ≡ length payload = omega arith in
    rw (size, long, cut) (exact-append payload rest)

send-parts :
    (payload frame : Bytes)
    → send payload ≡ ok frame
    → (length payload + 4 < 65536)
      × (frame ≡ 3 ∷ 0 ∷ (length payload + 4) / 256 ∷ (length payload + 4) % 256 ∷ payload)
unfolding send
send-parts payload frame h = elim (Bool-cases (ltb (length payload + 4) 65536)) [
  | inl fits ↦
      let short : length payload + 4 < 65536 = ground arith in
      (short, ok_inj (sym h ∙ send-frame payload short))
  | inr long ↦ absurd (ground arith)
]

accepted :
    (a b size : ℕ) (u : Unit {0})
    → raise_if (not (a == 3) || not (b == 0) || ltb size 4) runtime_error ≡ ok u
    → (a ≡ 3) × (b ≡ 0) × (4 ≤ size)
accepted a b size u h = ground arith

receive-parts :
    (octets : Bytes) (r : Bytes × Bytes)
    → IsBytes octets
    → receive octets ≡ ok r
    → (octets ≡ 3 ∷ 0 ∷ (length r.0 + 4) / 256 ∷ (length r.0 + 4) % 256 ∷ (r.0 ++ r.1))
      × (length r.0 + 4 < 65536)
unfolding receive exact
receive-parts [] r i h = cc
receive-parts (a ∷ []) r i h = cc
receive-parts (a ∷ b ∷ []) r i h = cc
receive-parts (a ∷ b ∷ c ∷ []) r i h = cc
receive-parts (a ∷ b ∷ c ∷ d ∷ octets) r (ia, (ib, (ic, (id, i)))) h =
    let (u, e, h') =
      >>=-eq-ok (raise_if (not (a == 3) || not (b == 0) || ltb (c * 256 + d) 4) runtime_error) _
        h in
    let (version, reserved, long) = accepted a b (c * 256 + d) u e in
    let (whole, count) = exact-parts (c * 256 + d - 4) octets r h' in
    let high : c ≡ (length r.0 + 4) / 256 = omega (arith, count) in
    let low : d ≡ (length r.0 + 4) % 256 = omega (arith, count) in
    (
      ap (λ k. k ∷ b ∷ c ∷ d ∷ octets) version
          ∙ ap (λ k. 3 ∷ k ∷ c ∷ d ∷ octets) reserved
          ∙ ap (λ k. 3 ∷ 0 ∷ k ∷ d ∷ octets) high
          ∙ ap (λ k. 3 ∷ 0 ∷ (length r.0 + 4) / 256 ∷ k ∷ octets) low
          ∙ ap (λ k. 3 ∷ 0 ∷ (length r.0 + 4) / 256 ∷ (length r.0 + 4) % 256 ∷ k) whole,
      omega (arith, count),
    )

-- On a connection that carries octets, a frame is received with its payload and what is left
-- behind it exactly where the connection begins with the octets that the payload is sent as.
pub receive_iff :
    (octets payload rest : Bytes)
    → IsBytes octets
    → (receive octets ≡ ok (payload, rest))
      ↔ ((frame : Bytes) × (send payload ≡ ok frame) × (octets ≡ frame ++ rest))
receive_iff octets payload rest i = (
  λ h.
      let (whole, short) = receive-parts octets (payload, rest) i h in
      (
        3 ∷ 0 ∷ (length payload + 4) / 256 ∷ (length payload + 4) % 256 ∷ payload,
        send-frame payload short,
        whole,
      ),
  λ (frame, e, whole).
      let (short, shape) = send-parts payload frame e in
      rw (whole, shape) (receive-frame payload rest short),
)
