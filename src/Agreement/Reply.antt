-- ===== src/Agreement/Reply.antt =====
-- Single USERDATA replies: the operation oracle against the management oracle, which also reads
-- the transport size.
use Prim.Native.Nat.{bit_or}
use lean_s.Prelude.{
  ℕ, zero, suc, ◌+◌, ◌<◌, ◌≡◌, refl, ◌∙◌, sym, ap, Bool, true, false, ◌&&◌, [], ◌∷◌, arith, ◌==◌,
  if◌then◌else◌, take, drop, slice,
}
use lean_s.Bytes.{Bytes, equal, byte_at, word_at}
use lean_s.Bytes.Laws.{eq_of_equal, byte_at-drop}
use lean_s.Management.{Category, Reply, Decoded, decode, decode_data}
use lean_s.Operation.Userdata.{decode_userdata}

-- Whether the octet 128 + g is what `|` makes of g, for the n lowest groups.
sets_high_bit : ℕ → Bool
sets_high_bit zero = true
sets_high_bit (suc g) = bit_or 0x80 g == 128 + g && sets_high_bit g

lower_group : (n g : ℕ) → g < n → sets_high_bit n ≡ true → bit_or 0x80 g ≡ 128 + g
unfolding sets_high_bit
lower_group zero g below table = absurd (omega arith)
lower_group (suc n) g below table = ground (arith, lower_group n g)

sixteen_groups : sets_high_bit 16 ≡ true
unfolding sets_high_bit
sixteen_groups = refl

-- The high bit of a response group, set by `|`.
pub response_group : (g : ℕ) → g < 16 → bit_or 0x80 g ≡ 128 + g
response_group g h = lower_group 16 g h sixteen_groups

-- what an accepted reply to one request is to the management oracle
abbrev pub complete_reply : Bytes → Bytes → Reply
complete_reply pdu payload = record {
  payload = payload;
  sequence = byte_at (slice 10 22 pdu) 7;
  data_unit_reference = byte_at (slice 10 22 pdu) 8;
  has_more_data = false;
  return_code = 255;
  transport_size = 9;
}

starts :
    (pdu : Bytes)
    → equal (take 2 pdu) (0x32 ∷ 7 ∷ []) ≡ true
    → (byte_at pdu 0 ≡ 0x32) × (byte_at pdu 1 ≡ 7)
starts [] h = cc
starts (a ∷ []) h = ground arith
starts (a ∷ b ∷ pdu) h = ground arith

ends : (p : Bytes) → equal (drop 10 p) (0 ∷ 0 ∷ []) ≡ true → word_at p 10 ≡ 0
ends p h =
    let e = eq_of_equal (drop 10 p) (0 ∷ 0 ∷ []) h in
    let a = sym (byte_at-drop p 10 0) ∙ ap (λ xs. byte_at xs 0) e in
    let b = sym (byte_at-drop p 10 1) ∙ ap (λ xs. byte_at xs 1) e in omega arith

-- A reply that the operation oracle accepts is to the management oracle, for a group below 16,
-- the complete reply with the same payload where its transport size is 9, and a protocol error
-- where it is not.
pub decode-decode_userdata :
    (pdu payload : Bytes) (reference group subfunction : ℕ)
    → group < 16
    → decode_userdata pdu reference group subfunction ≡ lean_s.Operation.Userdata.accept payload
    → decode pdu reference group subfunction ≡ (
        if byte_at (drop 22 pdu) 1 == 9
        then Decoded.accept (complete_reply pdu payload)
        else Decoded.reject Category.protocol)
unfolding decode_userdata decode decode_data
decode-decode_userdata pdu payload reference group subfunction hg h =
    ground (arith, starts pdu, ends (slice 10 22 pdu), response_group group)
