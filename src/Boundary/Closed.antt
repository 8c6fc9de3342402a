-- ===== src/Boundary/Closed.antt =====
-- What `_closed` of integration/boundary_operations.py accepts.
use lean_s.Prelude.{
  ℕ, zero, suc, ◌≡◌, refl, ap, ◌∙◌, ◌↔◌, ◌⊎◌, inl, inr, Bool, true, false, not, [], ◌∷◌, ◌++◌,
  append-nil,
}
use lean_s.Error.{ok, runtime_error, >>=-eq-ok, ok_inj, raise_if}
use lean_s.Bytes.{Bytes, equal}
use lean_s.Bytes.Laws.{eq_of_equal}
use lean_s.Boundary.{
  Ending, closes, resets, stays, disconnect, end_allowed, end_forbidden, receive_all, nothing_left,
  expect_closed,
}

receive_all-parts :
    (n : ℕ) (octets : Bytes) (ending : Ending) (r : Bytes × Bytes)
    → receive_all n octets ending ≡ ok r
    → octets ≡ r.0 ++ r.1
unfolding receive_all end_forbidden
receive_all-parts zero octets ending r h = rw (← ok_inj h) refl
receive_all-parts (suc n) [] closes r h = cc
receive_all-parts (suc n) [] resets r h = cc
receive_all-parts (suc n) [] stays r h = cc
receive_all-parts (suc n) (b ∷ octets) ending r h =
    let (rest, e, last) = >>=-eq-ok (receive_all n octets ending) _ h in
    rw (← ok_inj last) (ap (◌∷◌ b) (receive_all-parts n octets ending rest e))

-- An ending at which the connection is gone.
abbrev pub IsGone : Ending → Type 0
IsGone closes = Unit
IsGone resets = Unit
IsGone stays = ⊥

gone : (ending : Ending) → end_allowed ending ≡ ok tt → IsGone ending
unfolding end_allowed
gone closes h = tt
gone resets h = tt
gone stays h = cc

nothing_left-parts :
    (octets : Bytes) (ending : Ending)
    → nothing_left octets ending ≡ ok tt
    → (octets ≡ []) × IsGone ending
unfolding nothing_left
nothing_left-parts [] ending h = (refl, gone ending h)
nothing_left-parts (b ∷ octets) ending h = cc

passed : (b : Bool) (u : Unit {0}) → raise_if (not b) runtime_error ≡ ok u → b ≡ true
passed true u h = refl
passed false u h = cc

expect_closed-parts :
    (octets : Bytes) (ending : Ending)
    → expect_closed octets ending ≡ ok tt
    → IsGone ending × ((octets ≡ []) ⊎ (octets ≡ disconnect))
unfolding expect_closed
expect_closed-parts [] ending h = (gone ending h, inl refl)
expect_closed-parts (first ∷ octets) ending h =
    let (received, e, h') = >>=-eq-ok (receive_all 10 octets ending) _ h in
    let (u, f, last) =
      >>=-eq-ok (raise_if (not (equal (first ∷ received.0) disconnect)) runtime_error) _ h' in
    let (empty, end) = nothing_left-parts received.1 ending last in
    let same : equal (first ∷ received.0) disconnect ≡ true =
      passed (equal (first ∷ received.0) disconnect) u f in
    (
      end,
      inr (
          ap (◌∷◌ first) (
            receive_all-parts 10 octets ending received e
            ∙ ap (◌++◌ received.0) empty
            ∙ append-nil received.0)
          ∙ eq_of_equal (first ∷ received.0) disconnect same),
    )

expect_closed-accepts :
    (octets : Bytes) (ending : Ending)
    → IsGone ending
    → (octets ≡ []) ⊎ (octets ≡ disconnect)
    → expect_closed octets ending ≡ ok tt
unfolding expect_closed receive_all nothing_left end_allowed disconnect
expect_closed-accepts octets closes h (inl e) = rw e refl
expect_closed-accepts octets resets h (inl e) = rw e refl
expect_closed-accepts octets closes h (inr e) = rw e refl
expect_closed-accepts octets resets h (inr e) = rw e refl
expect_closed-accepts octets stays h e = absurd h

-- The closure check passes exactly on a connection that ends, closed or reset, either before any
-- octet or after those of one whole disconnect.
pub expect_closed_iff :
    (octets : Bytes) (ending : Ending)
    → (expect_closed octets ending ≡ ok tt)
      ↔ (IsGone ending × ((octets ≡ []) ⊎ (octets ≡ disconnect)))
expect_closed_iff octets ending =
    (expect_closed-parts octets ending, λ (h, e). expect_closed-accepts octets ending h e)
