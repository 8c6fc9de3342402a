-- ===== src/Reducer/Deleted.antt =====
-- Sublists, and the deletions of the reducers.
use lean_s.Prelude.{
  ℕ, zero, suc, ◌+◌, ◌≤◌, ◌<◌, List, [], ◌∷◌, ◌++◌, arith, length, take, drop, length-append,
  length-take, length-drop,
}
use lean_s.Reducer.{delete}

-- What is left of a list when elements are deleted.
pub data Sub {A : Type 0} : List A → List A → Type 0 where
  nil : Sub [] []
  skip : {x : A} {xs ys : List A} → Sub xs ys → Sub xs (x ∷ ys)
  keep : {x : A} {xs ys : List A} → Sub xs ys → Sub (x ∷ xs) (x ∷ ys)

module _ {A : Type 0} where
  pub Sub_refl : (xs : List A) → Sub xs xs
  Sub_refl [] = nil
  Sub_refl (x ∷ xs) = keep (Sub_refl xs)

  pub Sub_trans : {zs ys : List A} (xs : List A) → Sub xs ys → Sub ys zs → Sub xs zs
  Sub_trans xs h nil = h
  Sub_trans xs h (skip k) = skip (Sub_trans xs h k)
  Sub_trans xs (skip h) (keep k) = skip (Sub_trans xs h k)
  Sub_trans (x ∷ xs) (keep h) (keep k) = keep (Sub_trans xs h k)

  drop-Sub : (n : ℕ) (xs : List A) → Sub (drop n xs) xs
  drop-Sub zero xs = Sub_refl xs
  drop-Sub (suc n) [] = nil
  drop-Sub (suc n) (x ∷ xs) = skip (drop-Sub n xs)

  deleted-Sub : (i n : ℕ) (xs : List A) → i ≤ n → Sub (take i xs ++ drop n xs) xs
  deleted-Sub zero n xs h = drop-Sub n xs
  deleted-Sub (suc i) zero xs h = absurd (omega arith)
  deleted-Sub (suc i) (suc n) [] h = nil
  deleted-Sub (suc i) (suc n) (x ∷ xs) h = keep (deleted-Sub i n xs (omega arith))

  pub delete-Sub : (offset width : ℕ) (xs : List A) → Sub (delete offset width xs) xs
  unfolding delete
  delete-Sub offset width xs = deleted-Sub offset (offset + width) xs (omega arith)

  pub length-delete-lt :
      (offset width : ℕ) (xs : List A)
      → 0 < width
      → offset < length xs
      → length (delete offset width xs) < length xs
  unfolding delete
  length-delete-lt offset width xs hw ho = omega (
    arith,
    length-append (take offset xs) (drop (offset + width) xs),
    length-take offset xs,
    length-drop (offset + width) xs,
  )
