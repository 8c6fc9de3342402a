-- ===== src/Framing.antt =====
-- The framing helpers of integration/multi_batching.py. A connection is what is yet to arrive on it:
-- its octets, after which the client closes it.
pub mod RoundTrip
use lean_s.Prelude.{
  ℕ, zero, suc, ◌+◌, ◌-◌, not, ◌||◌, List, [], ◌∷◌, ◌++◌, ltb, ◌==◌, length, take, drop,
}
use lean_s.Error.{Result, ok, err, runtime_error, ◌>>=◌, ◌>>◌, raise_if}
use lean_s.Bytes.{Bytes, equal, byte_at, word_at, pack_word}

-- `_exact`: the octets asked for, and what is left
unfoldable pub exact : ℕ → Bytes → Result (Bytes × Bytes)
exact zero octets = ok ([], octets)
exact (suc n) [] = err runtime_error
exact (suc n) (b ∷ octets) = do rest ← exact n octets; ok (b ∷ rest.0, rest.1)

-- `_receive`: the payload of a TPKT frame
unfoldable pub receive : Bytes → Result (Bytes × Bytes)
receive octets = do
  header ← exact 4 octets
  let size = word_at header.0 2
  raise_if (not (byte_at header.0 0 == 3) || not (byte_at header.0 1 == 0) || ltb size 4)
      runtime_error
  exact (size - 4) header.1

-- `_send`: the octets of a frame
unfoldable pub send : Bytes → Result Bytes
send payload = do size ← pack_word (length payload + 4); ok (3 ∷ 0 ∷ (size ++ payload))

-- `_request`: the S7 request in a COTP data packet
unfoldable pub request : Bytes → Result (Bytes × Bytes)
request octets = do
  frame ← receive octets
  raise_if (not (equal (take 3 frame.0) (0x02 ∷ 0xf0 ∷ 0x80 ∷ []))) runtime_error
  ok (drop 3 frame.0, frame.1)
