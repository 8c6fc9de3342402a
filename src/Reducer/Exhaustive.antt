-- ===== src/Reducer/Exhaustive.antt =====
-- The reducer of integration/session_fuzz.py.
use Prim.Native.Nat.{max}
use lean_s.Prelude.{
  ℕ, zero, suc, ◌+◌, ◌-◌, ◌*◌, ◌/◌, ◌≤◌, ◌<◌, ◌≡◌, refl, sym, ap, ◌∙◌, Bool, true, false, not, ◌&&◌,
  some, List, arith, ltb, ◌==◌, length, Bool-cases, inl, inr,
}
use lean_s.Reducer.{delete, sweep, sweeps, minimize_all}
use lean_s.Reducer.Deleted.{Sub, Sub_refl, Sub_trans, delete-Sub, length-delete-lt}

square_le : (n m : ℕ) → n < m → n * n + n ≤ m * m
square_le zero m h = omega arith
square_le (suc n) zero h = absurd (omega arith)
square_le (suc n) (suc m) h = omega (arith, square_le n m (omega arith))

module _ {A : Type 0} (fails : List A → Bool) where
  -- what the sweep asks of a candidate
  abbrev pub kept : List A → Bool
  kept candidate = not (length candidate == 0) && fails candidate

  -- No deletion of one of the first elements is kept.
  abbrev pub Minimal : ℕ → List A → Type 0
  Minimal index result = (i : ℕ) → i < index → kept (delete i 1 result) ≡ false

  -- What a sweep of a list comes to.
  abbrev Swept : ℕ → List A → List A → Type 0
  Swept width result result' =
      Sub result' result
      × (fails result ≡ true → fails result' ≡ true)
      × (width ≡ 1 → Minimal (length result') result')

  kept-fails : (candidate : List A) → kept candidate ≡ true → fails candidate ≡ true
  kept-fails candidate h = ground arith

  Minimal-next :
      (width index : ℕ) (result : List A)
      → kept (delete index width result) ≡ false
      → (width ≡ 1 → Minimal index result)
      → width ≡ 1
      → Minimal (index + width) result
  Minimal-next width index result e h one i lt = elim (Bool-cases (i == index)) [
    | inl here ↦
        let same : i ≡ index = ground arith in
        ap kept (ap (λ k. delete k 1 result) same ∙ ap (λ k. delete index k result) (sym one)) ∙ e
    | inr before ↦ h one i (ground arith)
  ]

  sweep-Swept :
      (width fuel index : ℕ) (result : List A)
      → 0 < width
      → length result * length result + (length result - index) < fuel
      → (width ≡ 1 → Minimal index result)
      → (r : List A) × (sweep fails width fuel index result ≡ some r) × Swept width result r
  unfolding sweep
  sweep-Swept width zero index result hw hf h = absurd (omega arith)
  sweep-Swept width (suc fuel) index result hw hf h =
      elim (Bool-cases (ltb index (length result))) [
        | inr e ↦ (result, rw e refl, (Sub_refl result, λ f. f, λ one i lt. h one i (ground arith)))
        | inl e ↦ elim (Bool-cases (kept (delete index width result))) [
          | inl f ↦
              let shorter = length-delete-lt index width result hw (ground arith) in
              let (r, e', (sub, won, minimal)) =
                sweep-Swept width fuel 0 (delete index width result) hw
                  (ground
                    (arith, square_le (length (delete index width result)) (length result) shorter))
                  (λ one i lt. absurd (omega arith)) in
              (
                r,
                rw (e, f) e',
                (
                  Sub_trans r sub (delete-Sub index width result),
                  λ g. won (kept-fails (delete index width result) f),
                  minimal,
                ),
              )
          | inr f ↦
              let (r, e', swept) =
                sweep-Swept width fuel (index + width) result hw (ground arith)
                  (Minimal-next width index result f h) in
              (r, rw (e, f) e', swept)
        ]
      ]

  last-sweeps :
      (fuel width : ℕ) (result swept : List A)
      → width < suc fuel
      → (width == 1) ≡ true
      → sweep fails width (suc (length result * length result + length result)) 0 result
        ≡ some swept
      → sweeps fails (suc fuel) width result ≡ some swept
  unfolding sweeps
  last-sweeps zero width result swept hf one e = absurd (ground arith)
  last-sweeps (suc fuel) width result swept hf one e =
      let wide : (width == 0) ≡ false = ground arith in
      let ends : (width / 2 == 0) ≡ true = ground arith in rw (wide, e, ends, sweeps) refl

  sweeps-Minimal :
      (fuel width : ℕ) (result : List A)
      → 0 < width
      → width < fuel
      → (r : List A) × (sweeps fails fuel width result ≡ some r)
        × Sub r result
        × (fails result ≡ true → fails r ≡ true)
        × Minimal (length r) r
  unfolding sweeps
  sweeps-Minimal zero width result hw hf = absurd (omega arith)
  sweeps-Minimal (suc fuel) width result hw hf =
      let wide : (width == 0) ≡ false = ground arith in
      let (swept, e, (sub, won, minimal)) =
        sweep-Swept width (suc (length result * length result + length result)) 0 result hw
          (omega arith) (λ one i lt. absurd (omega arith)) in
      elim (Bool-cases (width == 1)) [
        | inl one ↦
            (swept, last-sweeps fuel width result swept hf one e, sub, won, minimal (ground arith))
        | inr more ↦
            let (r, e', sub', won', minimal') =
              sweeps-Minimal fuel (width / 2) swept (ground arith) (ground arith) in
            (r, rw (wide, e, sweeps) e', Sub_trans r sub' sub, λ f. won' (won f), minimal')
      ]

  -- The reduction returns: a sublist of the events, which fails where they do. No deletion of a
  -- single element from it leaves a list that is not empty and fails.
  pub minimize_all-Minimal :
      (events : List A)
      → (r : List A) × (minimize_all fails events ≡ some r)
        × Sub r events
        × (fails events ≡ true → fails r ≡ true)
        × Minimal (length r) r
  unfolding minimize_all
  minimize_all-Minimal events =
      sweeps-Minimal (suc (max 1 (length events / 2))) (max 1 (length events / 2)) events
        (omega arith) (omega arith)
