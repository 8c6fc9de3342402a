-- ===== src/Peer/Reply.antt =====
-- `_reply` of integration/userdata_assurance.py: a USERDATA reply.
use Prim.Native.Nat.{bit_or}
use lean_s.Prelude.{ℕ, [], ◌∷◌, ◌++◌, length}
use lean_s.Error.{Result, ok, ◌>>=◌}
use lean_s.Bytes.{Bytes, pack_word}
use lean_s.Management.{octet}

-- The fields of a reply that are not its payload: an octet each, in the order of the wire.
pub record Header : Type 0 where
  pub group : ℕ
  pub subfunction : ℕ
  pub sequence : ℕ
  pub unit : ℕ
  pub flag : ℕ
  pub transport : ℕ
  pub code : ℕ

unfoldable pub reply : ℕ → Header → Bytes → Result Bytes
unfolding octet
reply reference h payload = do
  group ← octet (bit_or 0x80 h.group)
  subfunction ← octet h.subfunction
  sequence ← octet h.sequence
  unit ← octet h.unit
  flag ← octet h.flag
  let parameters : Bytes =
      0 ∷ 1 ∷ 0x12 ∷ 8 ∷ 0x12 ∷ group ∷ subfunction ∷ sequence ∷ unit ∷ flag ∷ 0 ∷ 0 ∷ []
  code ← octet h.code
  transport ← octet h.transport
  size ← pack_word (length payload)
  let content : Bytes = code ∷ transport ∷ (size ++ payload)
  number ← pack_word reference
  data_size ← pack_word (length content)
  ok (0x32 ∷ 7 ∷ 0 ∷ 0 ∷ (number ++ (0 ∷ 12 ∷ (data_size ++ (parameters ++ content)))))
