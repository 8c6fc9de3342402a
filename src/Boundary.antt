-- ===== src/Boundary.antt =====
-- `_handshake` and `_closed` of integration/boundary_operations.py.
pub mod Closed
use lean_s.Prelude.{
  ℕ, zero, suc, not, List, [], ◌∷◌, ◌++◌, Option, none, some, get_elem?, slice, drop,
}
use lean_s.Error.{Result, ok, err, index_error, runtime_error, timeout_error, ◌>>=◌, ◌>>◌, raise_if}
use lean_s.Bytes.{Bytes, equal, pack_word, from_bytes}
use lean_s.Queue.Wire.{ack}

-- cr[i]
unfoldable pub item : Bytes → ℕ → Result ℕ
item octets i = elim (get_elem? octets i) [ none ↦ err index_error | some b ↦ ok b ]

-- The payloads that the handshake answers a connection request and a setup with.
unfoldable pub handshake : Bytes → Bytes → ℕ → Result (Bytes × Bytes)
handshake cr setup pdu = do
  high ← item cr 4
  low ← item cr 5
  raise_if (not (equal (drop 10 setup) (0xf0 ∷ 0 ∷ 0 ∷ 0x01 ∷ 0 ∷ 0x01 ∷ 0x01 ∷ 0xe0 ∷ [])))
      runtime_error
  size ← pack_word pdu
  answer ← ack (from_bytes (slice 4 6 setup)) (slice 10 16 setup ++ size) []
  ok (0x11 ∷ 0xd0 ∷ high ∷ low ∷ 0 ∷ 1 ∷ 0 ∷ drop 7 cr, 0x02 ∷ 0xf0 ∷ 0x80 ∷ answer)

-- How a connection goes on when all of its octets have been received: it is closed, it is reset, or
-- nothing arrives before the timeout.
pub data Ending : Type 0 where
  closes resets stays : Ending

-- the frame of a COTP disconnect
unfoldable pub disconnect : Bytes
disconnect = 0x03 ∷ 0 ∷ 0 ∷ 0x0b ∷ 0x06 ∷ 0x80 ∷ 0 ∷ 0x01 ∷ 0 ∷ 0x01 ∷ 0 ∷ []

-- A `recv` at the ending, where the end of the connection is allowed
unfoldable pub end_allowed : Ending → Result (Unit {0})
end_allowed closes = ok tt
end_allowed resets = ok tt
end_allowed stays = err timeout_error

-- and where it is not
unfoldable pub end_forbidden : Ending → Result (Bytes × Bytes)
end_forbidden closes = err runtime_error
end_forbidden resets = err runtime_error
end_forbidden stays = err timeout_error

-- The loop that receives so many octets, and what is left then.
unfoldable pub receive_all : ℕ → Bytes → Ending → Result (Bytes × Bytes)
receive_all zero octets ending = ok ([], octets)
receive_all (suc n) [] ending = end_forbidden ending
receive_all (suc n) (b ∷ octets) ending = do
  rest ← receive_all n octets ending
  ok (b ∷ rest.0, rest.1)

-- the last `recv`
unfoldable pub nothing_left : Bytes → Ending → Result (Unit {0})
nothing_left [] ending = end_allowed ending
nothing_left (b ∷ octets) ending = err runtime_error

unfoldable pub expect_closed : Bytes → Ending → Result (Unit {0})
expect_closed [] ending = end_allowed ending
expect_closed (first ∷ octets) ending = do
  received ← receive_all 10 octets ending
  raise_if (not (equal (first ∷ received.0) disconnect)) runtime_error
  nothing_left received.1 ending
