-- ===== src/Agreement/Frame.antt =====
-- The octets of a PDU as one expression, with the range errors of `packet` discharged.
use lean_s.Prelude.{ℕ, ◌<◌, ◌≡◌, refl, [], ◌∷◌, ◌++◌, ◌==◌, lt→ltb, if◌then◌else◌, length}
use lean_s.Error.{ok}
use lean_s.Bytes.{Bytes, word}
use lean_s.Conversation.{packet}

-- the error class and code of an acknowledgement
abbrev pub error_field : ℕ → Bytes
error_field kind = if kind == 3 then 0 ∷ 0 ∷ [] else []

abbrev pub frame : ℕ → ℕ → Bytes → Bytes → Bytes
frame kind reference parameters content =
    0x32
    ∷ kind
    ∷ 0
    ∷ 0
    ∷ (word reference
        ++ (word (length parameters)
            ++ (word (length content) ++ (error_field kind ++ (parameters ++ content)))))

pub packet-eq-frame :
    (kind reference : ℕ) (parameters content : Bytes)
    → kind < 256
    → reference < 65536
    → length parameters < 65536
    → length content < 65536
    → packet kind reference parameters content ≡ ok (frame kind reference parameters content)
unfolding packet
packet-eq-frame kind reference parameters content hk hr hp hc =
    rw (lt→ltb _ _ hk) (rw (lt→ltb _ _ hr) (rw (lt→ltb _ _ hp) (rw (lt→ltb _ _ hc) refl)))
