-- ===== src/Emulator/Collected.antt =====
-- What clients make of the fragments of a list that `MultiItemServer` in integration/run.py sends.
use lean_s.Prelude.{
  ℕ, ◌≡◌, refl, sym, ap, ◌∙◌, Bool, true, false, Option, none, some, List, [], ◌∷◌, ◌++◌, ==_refl,
  if◌then◌else◌, append-nil, arith,
}
use lean_s.Error.{ok}
use lean_s.Bytes.{Bytes}
use lean_s.Management
use lean_s.Management.{Decoded, accept, reject, decode}
use lean_s.Peer.Reply.{reply}
use lean_s.Sequence.Userdata.{Case}
use lean_s.Agreement.Verdicts.{decode-reply}
use lean_s.Agreement.Fragments.{Chunk, replies}
use lean_s.Emulator.Szl.{concat, is_some}
use lean_s.Emulator.Fragments.{szl_header, Answered}

-- the payload of a fragment in front of what has been collected behind it
abbrev in_front : Bytes → Option Bytes → Option Bytes
in_front payload none = none
in_front payload (some rest) = some (payload ++ rest)

-- what the last reply comes to
abbrev at_end : Bytes → List Bytes → Option Bytes
at_end payload [] = some payload
at_end payload (pdu ∷ pdus) = none

-- A reply, the replies behind it, and what is collected from those. All replies but the last must
-- say that more is to come, and the last must not.
abbrev taken : Decoded → List Bytes → Option Bytes → Option Bytes
taken (reject category) pdus behind = none
taken (accept fragment) pdus behind =
    if fragment.has_more_data
    then in_front fragment.payload behind
    else at_end fragment.payload pdus

-- A client that reads each reply with the management oracle, at the reference of its request, and
-- joins the payloads.
abbrev pub collect : List ℕ → List Bytes → Option Bytes
collect [] pdus = none
collect (reference ∷ references) [] = none
collect (reference ∷ references) (pdu ∷ pdus) =
    taken (decode pdu reference 4 1) pdus (collect references pdus)

abbrev pub references_of : List (ℕ × ℕ) → List ℕ
references_of [] = []
references_of ((reference, number) ∷ ns) = reference ∷ references_of ns

abbrev read_fragment : ℕ → Bool → Bytes → Management.Reply
read_fragment number more payload = record {
  payload = payload;
  sequence = number;
  data_unit_reference = 1;
  has_more_data = more;
  return_code = 255;
  transport_size = 9;
}

decoded_fragment :
    (reference number : ℕ) (more : Bool) (f pdu : Bytes)
    → reply reference (szl_header number more) f ≡ ok pdu
    → decode pdu reference 4 1 ≡ accept (read_fragment number more f)
decoded_fragment reference number true f pdu e =
    let own = ==_refl reference in
    decode-reply reference reference 4 1 (szl_header number true) f pdu e (omega arith)
    ∙ rw own refl
decoded_fragment reference number false f pdu e =
    let own = ==_refl reference in
    decode-reply reference reference 4 1 (szl_header number false) f pdu e (omega arith)
    ∙ rw own refl

-- A client that collects the replies has the list.
pub collect-Answered :
    (n : ℕ × ℕ) (ns : List (ℕ × ℕ)) (f : Bytes) (fs pdus : List Bytes)
    → Answered (n ∷ ns) (f ∷ fs) pdus
    → collect (references_of (n ∷ ns)) pdus ≡ some (concat (f ∷ fs))
unfolding concat is_some
collect-Answered n ns f fs [] h = absurd h
collect-Answered (reference, number) [] f [] (pdu ∷ []) (e, h) =
    rw (decoded_fragment reference number false f pdu e, append-nil) refl
collect-Answered (reference, number) [] f [] (pdu ∷ next ∷ pdus) (e, h) = absurd h
collect-Answered (reference, number) [] f (g ∷ gs) (pdu ∷ pdus) (e, h) = absurd h
collect-Answered (reference, number) (n ∷ ns) f [] (pdu ∷ pdus) (e, h) = absurd h
collect-Answered (reference, number) (n ∷ ns) f (g ∷ gs) (pdu ∷ pdus) (e, h) =
    rw (decoded_fragment reference number true f pdu e, collect-Answered n ns g gs pdus h) refl

-- the cases of a list: USERDATA of the group 4 and the function 1
abbrev pub szl_case : ℕ → ℕ → ℕ → Case
szl_case reference bound size = record {
  reference = reference;
  expected_group = 4;
  expected_subfunction = 1;
  maximum_fragments = bound;
  maximum_bytes = size;
}

reply_last :
    (own reference bound size number : ℕ) (f pdu : Bytes)
    → own ≡ reference
    → reply own (szl_header number false) f ≡ ok pdu
    → replies
        (szl_case reference bound size)
        (record { sequence = number; unit = 1; payload = f } ∷ [])
      ≡ ok (pdu ∷ [])
reply_last own reference bound size number f pdu e replied =
    let replied' : reply reference (szl_header number false) f ≡ ok pdu =
      sym (ap (λ k. reply k (szl_header number false) f) e) ∙ replied in
    rw replied' refl

reply_rest :
    (own reference bound size number : ℕ) (f pdu : Bytes) (c : Chunk) (cs : List Chunk)
    (pdus : List Bytes)
    → own ≡ reference
    → reply own (szl_header number true) f ≡ ok pdu
    → replies (szl_case reference bound size) (c ∷ cs) ≡ ok pdus
    → replies
        (szl_case reference bound size)
        (record { sequence = number; unit = 1; payload = f } ∷ c ∷ cs)
      ≡ ok (pdu ∷ pdus)
reply_rest own reference bound size number f pdu c cs pdus e replied rest =
    let replied' : reply reference (szl_header number true) f ≡ ok pdu =
      sym (ap (λ k. reply k (szl_header number true) f) e) ∙ replied in
    rw (replied', rest) refl

-- the fragments, with the numbers that they have been asked for by
abbrev pub numbered : List (ℕ × ℕ) → List Bytes → List Chunk
numbered [] fs = []
numbered (n ∷ ns) [] = []
numbered ((reference, number) ∷ ns) (f ∷ fs) =
    record { sequence = number; unit = 1; payload = f } ∷ numbered ns fs

-- One reference for all of the requests.
abbrev pub Shared : ℕ → List (ℕ × ℕ) → Type 0
Shared reference [] = Unit
Shared reference ((own, number) ∷ ns) = (own ≡ reference) × Shared reference ns

pub replies-Answered :
    (reference bound size : ℕ) (ns : List (ℕ × ℕ)) (fs pdus : List Bytes)
    → Shared reference ns
    → Answered ns fs pdus
    → replies (szl_case reference bound size) (numbered ns fs) ≡ ok pdus
unfolding is_some
replies-Answered reference bound size [] [] [] same h = refl
replies-Answered reference bound size [] [] (pdu ∷ pdus) same h = absurd h
replies-Answered reference bound size [] (f ∷ fs) pdus same h = absurd h
replies-Answered reference bound size (n ∷ ns) [] pdus same h = absurd h
replies-Answered reference bound size (n ∷ ns) (f ∷ fs) [] same h = absurd h
replies-Answered reference bound size ((own, number) ∷ []) (f ∷ []) (pdu ∷ []) (e, same) (h, hs) =
    reply_last own reference bound size number f pdu e h
replies-Answered reference bound size (n ∷ []) (f ∷ []) (pdu ∷ next ∷ pdus) same (h, hs) = absurd hs
replies-Answered reference bound size (n ∷ []) (f ∷ g ∷ gs) (pdu ∷ pdus) same (h, hs) = absurd hs
replies-Answered reference bound size (n ∷ m ∷ ns) (f ∷ []) (pdu ∷ pdus) same (h, hs) = absurd hs
replies-Answered reference bound size ((own, number) ∷ m ∷ ns) (f ∷ g ∷ gs) (pdu ∷ pdus) (e, same)
      (h, hs) =
    reply_rest own reference bound size number f pdu _ _ pdus e h
      (replies-Answered reference bound size (m ∷ ns) (g ∷ gs) pdus same hs)
