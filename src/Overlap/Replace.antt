-- ===== src/Overlap/Replace.antt =====
-- Assignments to slices that lie one behind the other.
use lean_s.Prelude.{
  ℕ, zero, suc, ◌+◌, ◌≡◌, refl, sym, ap, ◌∙◌, [], ◌∷◌, ◌++◌, append-nil, append_assoc, arith,
  length, take, drop, length-append, take-append, drop-drop, drop-nil, take_all,
}
use lean_s.Bytes.{Bytes}

-- The memory with a slice of it replaced, from an index on.
abbrev pub replace : ℕ → Bytes → Bytes → Bytes
replace k xs memory = take k memory ++ (xs ++ drop (k + length xs) memory)

take-replace :
    (k : ℕ) (xs memory : Bytes) → take (k + length xs) (replace k xs memory) ≡ take k memory ++ xs
take-replace zero xs memory =
    let e : 0 + length xs ≡ length xs = omega arith in
    rw e (take-append (length xs) xs (drop (length xs) memory) refl)
take-replace (suc k) xs [] =
    rw (drop-nil, append-nil) (take_all (suc k + length xs) xs (omega arith))
take-replace (suc k) xs (x ∷ memory) =
    let e : suc k + length xs ≡ suc (k + length xs) = omega arith in
    rw e (ap (◌∷◌ x) (take-replace k xs memory))

drop-past : (n : ℕ) (xs ys : Bytes) → drop (length xs + n) (xs ++ ys) ≡ drop n ys
drop-past n [] ys = ap (λ k. drop k ys) (omega arith)
drop-past n (x ∷ xs) ys =
    let e : length (x ∷ xs) + n ≡ suc (length xs + n) = omega arith in rw e (drop-past n xs ys)

drop-replace :
    (k n : ℕ) (xs memory : Bytes)
    → drop (k + length xs + n) (replace k xs memory) ≡ drop (k + length xs + n) memory
drop-replace zero n xs memory =
    let e : 0 + length xs + n ≡ length xs + n = omega arith in
    let f : 0 + length xs ≡ length xs = omega arith in
    rw (e, f) (drop-past n xs (drop (length xs) memory) ∙ drop-drop (length xs) n memory)
drop-replace (suc k) n xs [] =
    let e : suc k + length xs + n ≡ length xs + suc (k + n) = omega arith in
    rw (e, drop-nil, append-nil)
      (ap (drop (length xs + suc (k + n))) (sym (append-nil xs))
        ∙ drop-past (suc (k + n)) xs []
        ∙ sym (drop-nil (length xs + suc (k + n))))
drop-replace (suc k) n xs (x ∷ memory) =
    let e : suc k + length xs + n ≡ suc (k + length xs + n) = omega arith in
    let f : suc k + length xs ≡ suc (k + length xs) = omega arith in
    rw (e, f) (drop-replace k n xs memory)

pub replace-replace :
    (k : ℕ) (xs ys memory : Bytes)
    → replace (k + length xs) ys (replace k xs memory) ≡ replace k (xs ++ ys) memory
replace-replace k xs ys memory =
    let e : k + length (xs ++ ys) ≡ k + length xs + length ys =
      omega (arith, length-append xs ys) in
    rw (take-replace k xs memory, drop-replace k (length ys) xs memory, e)
      (append_assoc (take k memory) xs (ys ++ drop (k + length xs + length ys) memory)
        ∙ ap (◌++◌ (take k memory))
            (sym (append_assoc xs ys (drop (k + length xs + length ys) memory))))
