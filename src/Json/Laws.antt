-- ===== src/Json/Laws.antt =====
-- What the JSON checks accept: octets are octets, and as many as the list holds.
use lean_s.Prelude.{ℕ, ◌≤◌, ◌≡◌, [], ◌∷◌, arith}
use lean_s.Error.{ok, >>=-eq-ok}
use lean_s.Bytes.{Bytes, IsBytes}
use lean_s.Json.{Json, Items, null, nil, cons, array, natural, integer, octet_list, octets}

-- An accepted integer is at most the maximum.
pub integer-le : (j : Json) (maximum n : ℕ) → integer j maximum ≡ ok n → n ≤ maximum
unfolding integer
integer-le (natural k) maximum n h = ground arith
integer-le null maximum n h = cc
integer-le _ maximum n h = cc

octet_list-IsBytes : (xs : Items) (bs : Bytes) → octet_list xs ≡ ok bs → IsBytes bs
unfolding octet_list
octet_list-IsBytes nil bs h = let e : [] ≡ bs = ground arith in rw (← e) tt
octet_list-IsBytes (cons x xs) bs h =
    let (b, hb, h') = >>=-eq-ok (integer x 255) _ h in
    let (t, ht, e) = >>=-eq-ok (octet_list xs) _ h' in
    let joined : b ∷ t ≡ bs = ground arith in
    rw (← joined) (omega (arith, integer-le x 255 b hb), octet_list-IsBytes xs t ht)

pub octets-IsBytes : (j : Json) (bs : Bytes) → octets j ≡ ok bs → IsBytes bs
unfolding octets
octets-IsBytes (array xs) bs h = octet_list-IsBytes xs bs (ground arith)
octets-IsBytes null bs h = cc
octets-IsBytes _ bs h = cc
