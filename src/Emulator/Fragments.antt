-- ===== src/Emulator/Fragments.antt =====
-- The fragments of `MultiItemServer` in integration/run.py, as a client that asks for one after the
-- other gets them.
use mathlib.Core.Logic.{if_pos}
use lean_s.Prelude.{
  ℕ, zero, suc, ◌≤◌, ◌<◌, ◌≡◌, refl, ap, ◌∙◌, Bool, true, false, Option, none, some, List, [], ◌∷◌,
  ◌++◌, map, arith, ◌==◌, if◌then◌else◌, length, take, drop, length-take, length-drop, lt→ltb,
}
use lean_s.Error.{Result, ok}
use lean_s.Bytes.{Bytes, word}
use lean_s.Bytes.Laws.{take-drop}
use lean_s.Peer.Reply.{Header, reply}
use lean_s.Emulator.Server.{Snap7, State, store, discard, pack_byte}
use lean_s.Emulator.Szl.{
  concat, chunks, is_some, userdata_fragment_response, keep, next_fragment, handle_szl,
}

-- No fragment has more than 48 octets.
abbrev pub Short : List Bytes → Type 0
Short [] = Unit
Short (f ∷ fs) = (length f ≤ 48) × Short fs

pub concat-chunks :
    (fuel : ℕ) (complete : Bytes)
    → length complete ≤ fuel
    → concat (chunks fuel complete) ≡ complete
unfolding concat chunks
concat-chunks zero [] h = refl
concat-chunks zero (b ∷ rest) h = absurd (omega arith)
concat-chunks (suc fuel) [] h = refl
concat-chunks (suc fuel) (b ∷ rest) h =
    ap (◌++◌ (take 48 (b ∷ rest)))
      (concat-chunks fuel (drop 48 (b ∷ rest)) (omega (arith, length-drop 48 (b ∷ rest))))
    ∙ take-drop 48 (b ∷ rest)

pub chunks-Short : (fuel : ℕ) (complete : Bytes) → Short (chunks fuel complete)
unfolding chunks
chunks-Short zero complete = tt
chunks-Short (suc fuel) [] = tt
chunks-Short (suc fuel) (b ∷ rest) =
    (omega (arith, length-take 48 (b ∷ rest)), chunks-Short fuel (drop 48 (b ∷ rest)))

abbrev pub szl_header : ℕ → Bool → Header
szl_header number more = record {
  group = 4;
  subfunction = 1;
  sequence = number;
  unit = 1;
  flag = if more then 1 else 0;
  transport = 9;
  code = 255;
}

-- Each fragment has been sent as the reply with the reference and the number that it was asked for
-- by, and all but the last say that more is to come.
abbrev pub Answered : List (ℕ × ℕ) → List Bytes → List Bytes → Type 0
Answered [] [] [] = Unit
Answered [] [] (pdu ∷ pdus) = ⊥
Answered [] (f ∷ fs) pdus = ⊥
Answered (n ∷ ns) [] pdus = ⊥
Answered (n ∷ ns) (f ∷ fs) [] = ⊥
Answered ((reference, number) ∷ ns) (f ∷ fs) (pdu ∷ pdus) =
    (reply reference (szl_header number (is_some fs)) f ≡ ok pdu) × Answered ns fs pdus

keep-nil :
    (server : Snap7) {Client : Type 0} (same : Discrete Client) (client : Client)
    (table : Client → Option (List Bytes))
    → keep server same client [] table client ≡ none
unfolding keep discard
keep-nil server same client table = if_pos (same client client) refl none (table client)

keep-cons :
    (server : Snap7) {Client : Type 0} (same : Discrete Client) (client : Client) (g : Bytes)
    (gs : List Bytes) (table : Client → Option (List Bytes))
    → keep server same client (g ∷ gs) table client ≡ some (g ∷ gs)
unfolding keep store
keep-cons server same client g gs table =
    if_pos (same client client) refl (some (g ∷ gs)) (table client)

next_fragment-eq :
    (server : Snap7) {Client : Type 0} (same : Discrete Client) (request : server.Parsed)
    (number group subfunction : ℕ) (client : Client) (f : Bytes) (fs : List Bytes)
    (table : Client → Option (List Bytes))
    → next_fragment server same request number group subfunction client (some (f ∷ fs)) table ≡ (
      userdata_fragment_response server request number (is_some fs) f group subfunction,
      keep server same client fs table,
    )
unfolding next_fragment
next_fragment-eq server same request number group subfunction client f fs table = refl

module _ (server : Snap7) (classic : server.userdata ≡ 7) where
  open server use {Parsed, Params, Memory, sequence, params_sequence}

  -- a fragment response of the group 4 is the reply of a USERDATA peer
  pub fragment-reply :
      (request : Parsed) (number : ℕ) (more : Bool) (payload : Bytes)
      → sequence request < 65536
      → number < 256
      → length payload ≤ 48
      → (pdu : Bytes) × (userdata_fragment_response server request number more payload 4 1 ≡ ok pdu)
        × (reply
              (sequence request)
              (record {
                group = 4;
                subfunction = 1;
                sequence = number;
                unit = 1;
                flag = if more then 1 else 0;
                transport = 9;
                code = 255;
              })
              payload
            ≡ ok pdu)
  unfolding userdata_fragment_response reply pack_byte
  fragment-reply request number more payload hs hn hp =
      let fragment : Bytes = 0xff ∷ 9 ∷ (word (length payload) ++ payload) in
      let flag : ℕ = if more then 1 else 0 in
      let small : flag < 256 = ground arith in
      (
        0x32
            ∷ 7
            ∷ 0
            ∷ 0
            ∷ (word (sequence request)
                ++ (0
                    ∷ 12
                    ∷ (word (length fragment)
                        ++ ((0 ∷ 1 ∷ 0x12 ∷ 8 ∷ 0x12 ∷ 132 ∷ 1 ∷ number ∷ 1 ∷ flag ∷ 0 ∷ 0 ∷ [])
                            ++ fragment)))),
        rw
            (
              classic,
              lt→ltb number 256 hn,
              lt→ltb (sequence request) 65536 hs,
              lt→ltb (length payload) 65536 (omega arith),
              lt→ltb (length fragment) 65536 (omega arith),
            )
            refl,
        rw
            (
              lt→ltb number 256 hn,
              lt→ltb (sequence request) 65536 hs,
              lt→ltb flag 256 small,
              lt→ltb (length payload) 65536 (omega arith),
              lt→ltb (length fragment) 65536 (omega arith),
            )
            refl,
      )

  -- Requests for the next fragments of a list: each has a reference and a number of its own.
  abbrev pub Asking : List (Parsed × Params) → Type 0
  Asking [] = Unit
  Asking ((request, params) ∷ rest) =
      (sequence request < 65536)
      × (0 < params_sequence params)
      × (params_sequence params < 256)
      × Asking rest

  -- the reference of each request and the number that it asks for
  abbrev pub numbers : List (Parsed × Params) → List (ℕ × ℕ)
  numbers [] = []
  numbers ((request, params) ∷ rs) = (sequence request, params_sequence params) ∷ numbers rs

  module _ {Client : Type 0} (same : Discrete Client) where
    -- the answers to requests of one client, one after the other
    unfoldable pub run :
        State Memory Client
        → Client
        → List (Parsed × Params)
        → List (Result Bytes) × State Memory Client
    run s client [] = ([], s)
    run s client ((request, params) ∷ rest) =
        let (answer, s') = handle_szl server same s request params client in
        let (answers, s'') = run s' client rest in (answer ∷ answers, s'')

    handle_szl-next :
        (s : State Memory Client) (request : Parsed) (params : Params) (client : Client) (f : Bytes)
        (fs : List Bytes)
        → s.szl_fragments client ≡ some (f ∷ fs)
        → 0 < params_sequence params
        → handle_szl server same s request params client ≡ (
          userdata_fragment_response server request (params_sequence params) (is_some fs) f 4 1,
          record s { szl_fragments = keep server same client fs s.szl_fragments },
        )
    unfolding handle_szl
    handle_szl-next s request params client f fs e h =
        let asks : params_sequence params == 0 ≡ false = ground arith in
        rw asks (ap (λ k. (k.0, record s { szl_fragments = k.1 })) (found e))
      where
        found :
            {t : Option (List Bytes)}
            → t ≡ some (f ∷ fs)
            → next_fragment server same request
                (params_sequence params)
                4
                1
                client
                t
                s.szl_fragments
              ≡ (
                userdata_fragment_response server request
                    (params_sequence params)
                    (is_some fs)
                    f
                    4
                    1,
                keep server same client fs s.szl_fragments,
              )
        found e' = rw e' (
            next_fragment-eq server same request (params_sequence params) 4 1 client f fs
              s.szl_fragments)

    -- The run of the requests for the fragments that are kept: a reply for each, and nothing left.
    pub later-run :
        (client : Client) (f : Bytes) (fs : List Bytes) (rs : List (Parsed × Params))
        (s : State Memory Client)
        → s.szl_fragments client ≡ some (f ∷ fs)
        → length rs ≡ suc (length fs)
        → Asking rs
        → Short (f ∷ fs)
        → (pdus : List Bytes) × ((run s client rs).0 ≡ map ok pdus)
          × Answered (numbers rs) (f ∷ fs) pdus
          × ((run s client rs).1.szl_fragments client ≡ none)
    unfolding run is_some
    later-run client f fs [] s e n asking short = absurd (omega arith)
    later-run client f [] ((request, params) ∷ []) s e n asking short =
        let (below, asks, small, rest) = asking in
        let (pdu, answered, replied) =
          fragment-reply request (params_sequence params) false f below small short.0 in
        let step = handle_szl-next s request params client f [] e asks in
        (
          pdu ∷ [],
          ap (λ k. k.0 ∷ []) step ∙ ap (λ k. k ∷ []) answered,
          (replied, tt),
          ap (λ k. k.1.szl_fragments client) step ∙ keep-nil server same client s.szl_fragments,
        )
    later-run client f (g ∷ gs) ((request, params) ∷ r ∷ rs) s e n asking short =
        let (below, asks, small, rest) = asking in
        let (pdu, answered, replied) =
          fragment-reply request (params_sequence params) true f below small short.0 in
        let step = handle_szl-next s request params client f (g ∷ gs) e asks in
        let s' : State Memory Client = record s {
          szl_fragments = keep server same client (g ∷ gs) s.szl_fragments;
        } in
        let (pdus, answers, rest_replied, none_left) =
          later-run client g gs (r ∷ rs) s' (keep-cons server same client g gs s.szl_fragments)
            (omega arith) rest short.1 in
        (
          pdu ∷ pdus,
          ap (λ k. k.0 ∷ (run k.1 client (r ∷ rs)).0) step
              ∙ ap (λ k. k ∷ (run s' client (r ∷ rs)).0) answered
              ∙ ap (◌∷◌ (ok pdu)) answers,
          (replied, rest_replied),
          ap (λ k. (run k.1 client (r ∷ rs)).1.szl_fragments client) step ∙ none_left,
        )
    later-run client f (g ∷ gs) (r ∷ []) s e n asking short = absurd (omega arith)
    later-run client f [] (r ∷ r' ∷ rs) s e n asking short = absurd (omega arith)
