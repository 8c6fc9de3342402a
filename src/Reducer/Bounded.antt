-- ===== src/Reducer/Bounded.antt =====
-- The reducer of integration/mixed_operations.py.
use Prim.Native.Nat.{min, max}
use lean_s.Prelude.{
  ℕ, zero, suc, ◌+◌, ◌-◌, ◌/◌, ◌≤◌, ◌<◌, ◌≡◌, refl, sym, ap, ◌∙◌, Bool, true, false, ◌||◌, Option,
  none, some, List, arith, ltb, leb, ◌==◌, length, Bool-cases, inl, inr, ◌⊎◌,
}
use lean_s.Error.{ok, err, value_error}
use lean_s.Reducer.{delete, scan, reduce, minimize}
use lean_s.Reducer.Deleted.{Sub, Sub_refl, Sub_trans, delete-Sub}

module _ {A : Type 0} (fails : List A → Bool) (budget : ℕ) where
  -- What a scan comes to: a deletion that still fails, or the end of the offsets or of the budget.
  abbrev Scanned : List A → ℕ → ℕ → ℕ → Option (List A) × ℕ → Type 0
  Scanned plan width offset attempts (some candidate, attempts') =
      (fails candidate ≡ true) × Sub candidate plan × (attempts < attempts') × (attempts' ≤ budget)
  Scanned plan width offset attempts (none, attempts') =
      (attempts ≤ attempts')
      × (attempts' ≤ budget)
      × (offset < length plan → attempts < attempts')
      × (width ≡ 1
          → attempts' < budget
          → (i : ℕ) → offset ≤ i
          → i < length plan
          → fails (delete i 1 plan) ≡ false)

  Scanned-next :
      (plan : List A) (width offset attempts : ℕ) (r : Option (List A) × ℕ)
      → 0 < width
      → fails (delete offset width plan) ≡ false
      → Scanned plan width (offset + width) (attempts + 1) r
      → Scanned plan width offset attempts r
  Scanned-next plan width offset attempts (some candidate, attempts') hw f (h, k, m, n) =
      (h, k, omega arith, n)
  Scanned-next plan width offset attempts (none, attempts') hw f (m, n, p, q) = (
    omega arith,
    n,
    λ h. omega arith,
    λ u v i lo hi. elim (Bool-cases (i == offset)) [
      | inl here ↦
          let e : i ≡ offset = ground arith in
          ap fails (ap (λ k. delete k 1 plan) e ∙ ap (λ k. delete offset k plan) (sym u)) ∙ f
      | inr further ↦ q u v i (ground arith) hi
    ],
  )

  scan-Scanned :
      (plan : List A) (width fuel offset attempts : ℕ)
      → 0 < width
      → length plan - offset < fuel
      → attempts < budget
      → (r : Option (List A) × ℕ) × (scan fails budget plan width fuel offset attempts ≡ some r)
        × Scanned plan width offset attempts r
  unfolding scan
  scan-Scanned plan width zero offset attempts hw hf hb = absurd (omega arith)
  scan-Scanned plan width (suc fuel) offset attempts hw hf hb =
      elim (Bool-cases (ltb offset (length plan))) [
        | inr e ↦ (
          (none, attempts),
          rw e refl,
          (
            omega arith,
            omega arith,
            λ h. absurd (ground arith),
            λ u v i lo hi. absurd (ground arith),
          ),
        )
        | inl e ↦ elim (Bool-cases (fails (delete offset width plan))) [
          | inl f ↦ (
            (some (delete offset width plan), attempts + 1),
            rw (e, f) refl,
            (f, delete-Sub offset width plan, omega arith, omega arith),
          )
          | inr f ↦ elim (Bool-cases (leb budget (attempts + 1))) [
            | inl g ↦ (
              (none, attempts + 1),
              rw (e, f, g) refl,
              (omega arith, omega arith, λ h. omega arith, λ u v i lo hi. absurd (ground arith)),
            )
            | inr g ↦
                let (r, e', h) =
                  scan-Scanned plan width fuel (offset + width) (attempts + 1) hw (ground arith)
                    (ground arith) in
                (r, rw (e, f, g) e', Scanned-next plan width offset attempts r hw f h)
          ]
        ]
      ]

  -- What a reduction comes to: a sublist that still fails, within the budget; and where attempts are
  -- left, one that no deletion of a single element keeps failing.
  abbrev pub Reduced : List A → List A × ℕ → Type 0
  Reduced plan (result, attempts) =
      (fails result ≡ true)
      × Sub result plan
      × (attempts ≤ budget)
      × (attempts < budget → (i : ℕ) → i < length result → fails (delete i 1 result) ≡ false)

  -- The reduction of a plan that fails returns.
  abbrev Returns : ℕ → Type 0
  Returns fuel =
      (plan : List A) (width attempts : ℕ)
      → 0 < width
      → budget - attempts < fuel
      → attempts ≤ budget
      → fails plan ≡ true
      → (r : List A × ℕ) × (reduce fails budget fuel plan width attempts ≡ some r) × Reduced plan r

  reduce_round :
      (fuel : ℕ)
      → Returns fuel
      → (plan : List A) (width attempts : ℕ) (r : Option (List A) × ℕ) → 0 < width
      → budget - attempts < suc fuel
      → attempts < budget
      → fails plan ≡ true
      → (length plan == 0 || leb budget attempts) ≡ false
      → scan fails budget plan width (suc (length plan)) 0 attempts ≡ some r
      → Scanned plan width 0 attempts r
      → (q : List A × ℕ) × (reduce fails budget (suc fuel) plan width attempts ≡ some q)
        × Reduced plan q
  unfolding reduce
  reduce_round fuel ih plan width attempts (some plan', attempts') hw hf hb f test e (h, k, m, n) =
      let (q, e', (won, sub, within, minimal)) =
        ih plan' (min width (max 1 (length plan'))) attempts' (ground arith) (omega arith)
          (omega arith) h in
      (q, rw (test, e, reduce) e', (won, Sub_trans q.0 sub k, within, minimal))
  reduce_round fuel ih plan width attempts (none, attempts') hw hf hb f test e (m, n, p, q) =
      elim (Bool-cases (width == 1)) [
        | inl one ↦ (
          (plan, attempts'),
          rw (test, e, one, reduce) refl,
          (f, Sub_refl plan, n, λ left i hi. q (ground arith) left i (omega arith) hi),
        )
        | inr wide ↦
            let (r, e', reduced) =
              ih plan (max 1 (width / 2)) attempts' (ground arith)
                (ground (arith, p (ground arith))) n f in
            (r, rw (test, e, wide, reduce) e', reduced)
      ]

  reduce-done :
      (fuel : ℕ) (plan : List A) (width attempts : ℕ)
      → (length plan == 0 || leb budget attempts) ≡ true
      → reduce fails budget (suc fuel) plan width attempts ≡ some (plan, attempts)
  unfolding reduce
  reduce-done fuel plan width attempts done = rw (done, reduce) refl

  reduce-Returns : (fuel : ℕ) → Returns fuel
  reduce-Returns zero plan width attempts hw hf hb f = absurd (omega arith)
  reduce-Returns (suc fuel) plan width attempts hw hf hb f =
      elim (Bool-cases (length plan == 0 || leb budget attempts)) [
        | inl done ↦ (
          (plan, attempts),
          reduce-done fuel plan width attempts done,
          (f, Sub_refl plan, hb, λ left i hi. absurd (ground arith)),
        )
        | inr more ↦
            let (r, e, scanned) =
              scan-Scanned plan width (suc (length plan)) 0 attempts hw (omega arith)
                (ground arith) in
            reduce_round fuel (reduce-Returns fuel) plan width attempts r hw hf (ground arith) f
              more e scanned
      ]

  -- A plan that does not fail is refused. The reduction of one that does returns: a sublist of the
  -- plan that still fails, after no more attempts than the budget. Where attempts are left, no
  -- deletion of a single element from it fails.
  pub minimize-Reduced :
      (plan : List A)
      → ((fails plan ≡ false) × (minimize fails budget plan ≡ err value_error))
        ⊎ ((r : List A × ℕ) × (minimize fails budget plan ≡ ok (some r)) × Reduced plan r)
  unfolding minimize
  minimize-Reduced plan = elim (Bool-cases (fails plan)) [
    | inl f ↦
        let (r, e, reduced) =
          reduce-Returns (suc budget) plan (max 1 (length plan / 2)) 0 (ground arith) (omega arith)
            (omega arith) f in
        inr (r, rw (f, e) refl, reduced)
    | inr f ↦ inl (f, rw f refl)
  ]
