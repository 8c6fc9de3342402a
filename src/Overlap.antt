-- ===== src/Overlap.antt =====
-- The operations of integration/overlap_operations.py, and the memory that they start from.
pub mod Peer
pub mod Replace
pub mod Check
pub mod Reads
pub mod Writes
pub mod Served
pub mod Bits
pub mod Accepted
pub mod Histories
use Prim.Native.Nat.{bit_or, bit_and, bit_xor}
use lean_s.Prelude.{ℕ, zero, suc, ◌+◌, ◌*◌, ◌%◌, ◌^◌, List, [], ◌∷◌, ◌==◌, if◌then◌else◌}
use lean_s.Bytes.{Bytes}

-- Operation.kind: "r", "w", "b", or any other text
pub data Kind : Type 0 where
  reads writes bits other : Kind

pub record Operation : Type 0 where
  pub identifier : ℕ
  pub kind : Kind
  pub start : ℕ
  pub size : ℕ
  pub argument : ℕ

abbrev pub memory_size : ℕ
memory_size = 2048

-- (factor * index + offset) % 256 for so many indices, from one on
unfoldable pub pattern_from : ℕ → ℕ → ℕ → ℕ → Bytes
pattern_from factor offset zero index = []
pattern_from factor offset (suc n) index =
    (offset + index * factor) % 256 ∷ pattern_from factor offset n (index + 1)

unfoldable pub initial_memory : Bytes
initial_memory = pattern_from 29 113 memory_size 0

unfoldable pub payload : ℕ → ℕ → Bytes
payload salt count = pattern_from 43 (salt * 17) count 0

unfoldable pub update_bit : ℕ → ℕ → ℕ → ℕ
update_bit value bit enabled =
    if enabled == 0 then bit_and value (bit_xor 255 (2 ^ bit)) else bit_or value (2 ^ bit)
