-- ===== src/Sequence/Sections.antt =====
-- `sections` of integration/sequence_conformance.py: the split of a PDU into its two sections.
use lean_s.Prelude.{
  ℕ, ◌+◌, not, ◌&&◌, ◌||◌, [], ◌∷◌, ltb, ◌==◌, if◌then◌else◌, length, take, slice, drop,
}
use lean_s.Error.{Result, ok, value_error, ◌>>◌, raise_if}
use lean_s.Bytes.{Bytes, equal, word_at}

-- A function code that is no octet makes `bytes` raise a ValueError too, as the failed comparison
-- does here.
unfoldable pub sections : Bytes → ℕ → ℕ → Result (Bytes × Bytes)
sections packet kind reference = do
  let header_size = if kind == 3 then 12 else 10
  raise_if
      (ltb (length packet) header_size || not (equal (take 4 packet) (0x32 ∷ kind ∷ 0 ∷ 0 ∷ [])))
      value_error
  let actual_reference = word_at packet 4
  let parameter_size = word_at packet 6
  let data_size = word_at packet 8
  raise_if
      (not (actual_reference == reference)
        || not (length packet == header_size + parameter_size + data_size))
      value_error
  raise_if (kind == 3 && not (equal (slice 10 12 packet) (0 ∷ 0 ∷ []))) value_error
  ok (
    slice header_size (header_size + parameter_size) packet,
    drop (header_size + parameter_size) packet,
  )
