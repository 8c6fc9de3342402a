-- ===== src/Sequence/Userdata.antt =====
-- `decode_conversation` of integration/sequence_conformance.py: the fragments of a USERDATA reply.
pub mod Bounds
use Prim.Native.Nat.{bit_or}
use lean_s.Prelude.{
  ℕ, ◌+◌, ◌-◌, Bool, false, not, ◌&&◌, ◌||◌, List, [], ◌∷◌, ◌++◌, ltb, ◌==◌, length, take, drop,
}
use lean_s.Error.{Result, ok, value_error, ◌>>=◌, ◌>>◌, raise_if}
use lean_s.Bytes.{Bytes, equal, byte_at, word_at}
use lean_s.Sequence.Sections.{sections}

-- the fields of a case that the oracle reads
pub record Case : Type 0 where
  pub reference : ℕ
  pub expected_group : ℕ
  pub expected_subfunction : ℕ
  pub maximum_fragments : ℕ
  pub maximum_bytes : ℕ

-- `accumulated`, and the flag `complete`
pub record Progress : Type 0 where
  pub accumulated : Bytes
  pub complete : Bool

unfoldable pub valid_parameters : Case → Bytes → Bool
valid_parameters test parameters =
    length parameters == 12
    && equal (take 5 parameters) (0 ∷ 1 ∷ 0x12 ∷ 8 ∷ 0x12 ∷ [])
    && byte_at parameters 5 == bit_or 0x80 test.expected_group
    && byte_at parameters 6 == test.expected_subfunction
    && (byte_at parameters 9 == 0 || byte_at parameters 9 == 1)
    && equal (drop 10 parameters) (0 ∷ 0 ∷ [])

unfoldable pub valid_payload : Bytes → Bool
valid_payload payload =
    not (ltb (length payload) 4)
    && equal (take 2 payload) (0xff ∷ 9 ∷ [])
    && length payload == 4 + word_at payload 2

-- One round of the loop; `count` numbers the fragments from 1.
unfoldable pub fragment : Case → ℕ → Progress → Bytes → Result Progress
fragment test count s raw = do
  raise_if (s.complete || ltb test.maximum_fragments count) value_error
  split ← sections raw 7 test.reference
  raise_if (not (valid_parameters test split.0)) value_error
  raise_if (not (valid_payload split.1)) value_error
  let more = byte_at split.0 9 == 1
  raise_if (more && count == test.maximum_fragments) value_error
  raise_if (ltb test.maximum_bytes (length s.accumulated + length split.1 - 4)) value_error
  ok (record { accumulated = s.accumulated ++ drop 4 split.1; complete = not more })

unfoldable pub fragments : Case → ℕ → Progress → List Bytes → Result Progress
fragments test count s [] = ok s
fragments test count s (raw ∷ rest) = do
  s' ← fragment test count s raw
  fragments test (count + 1) s' rest

unfoldable pub decode_conversation : Case → List Bytes → Result Bytes
decode_conversation test response_pdus = do
  s ← fragments test 1 (record { accumulated = []; complete = false }) response_pdus
  raise_if (not s.complete) value_error
  ok s.accumulated
