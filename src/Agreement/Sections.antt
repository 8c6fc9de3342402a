-- ===== src/Agreement/Sections.antt =====
-- `sections` of the sequence oracle reads what `packet` of the conversation oracle writes.
use lean_s.Prelude.{
  ℕ, ◌<◌, ◌≡◌, refl, true, false, ◌∷◌, ◌++◌, ◌==◌, length, Bool-cases, inl, inr, arith,
  length-append, ==_refl,
}
use lean_s.Error.{ok, ◌>>=◌}
use lean_s.Bytes.{Bytes, word}
use lean_s.Bytes.Laws.{slice-section, drop-section, word_parts}
use lean_s.Conversation.{packet}
use lean_s.Sequence.Sections.{sections}
use lean_s.Agreement.Frame.{frame, packet-eq-frame}

-- A header before the sections: its first ten octets, and the two more of an acknowledgement.
abbrev headed : ℕ → ℕ → ℕ → ℕ → Bytes → Bytes
headed kind reference m n rest =
    0x32 ∷ kind ∷ 0 ∷ 0 ∷ (word reference ++ (word m ++ (word n ++ rest)))

sections-ack :
    (kind reference : ℕ) (p c : Bytes)
    → kind == 3 ≡ true
    → sections (headed kind reference (length p) (length c) (0 ∷ 0 ∷ (p ++ c))) kind reference
      ≡ ok (p, c)
unfolding sections
sections-ack kind reference p c ack =
    let whole = headed kind reference (length p) (length c) (0 ∷ 0 ∷ (p ++ c)) in
    rw ack (
      simp
        (
          length-append,
          word_parts,
          ==_refl,
          slice-section 12 whole p c refl,
          drop-section 12 whole p c refl,
        )
        (ground arith))

sections-other :
    (kind reference : ℕ) (p c : Bytes)
    → kind == 3 ≡ false
    → sections (headed kind reference (length p) (length c) (p ++ c)) kind reference ≡ ok (p, c)
unfolding sections
sections-other kind reference p c other =
    let whole = headed kind reference (length p) (length c) (p ++ c) in
    rw other (
      simp
        (
          length-append,
          word_parts,
          ==_refl,
          slice-section 10 whole p c refl,
          drop-section 10 whole p c refl,
        )
        (ground arith))

pub sections-frame :
    (kind reference : ℕ) (parameters content : Bytes)
    → sections (frame kind reference parameters content) kind reference ≡ ok (parameters, content)
sections-frame kind reference parameters content = elim (Bool-cases (kind == 3)) [
  | inl ack ↦ rw ack (sections-ack kind reference parameters content ack)
  | inr other ↦ rw other (sections-other kind reference parameters content other)
]

-- `sections` reads back the sections of every PDU that `packet` builds, and `packet` builds one
-- for every kind that is an octet, 16-bit reference and sections of fewer than 65536 octets.
pub sections-packet :
    (kind reference : ℕ) (parameters content : Bytes)
    → kind < 256
    → reference < 65536
    → length parameters < 65536
    → length content < 65536
    → (packet kind reference parameters content >>= λ pdu. sections pdu kind reference)
      ≡ ok (parameters, content)
sections-packet kind reference parameters content hk hr hp hc =
    rw (packet-eq-frame kind reference parameters content hk hr hp hc)
      (sections-frame kind reference parameters content)
