-- ===== src/Emulator/Lists.antt =====
-- A system status list of `MultiItemServer` in integration/run.py, from the first request of a
-- client to the last fragment.
use lean_s.Prelude.{
  ℕ, zero, suc, ◌+◌, ◌*◌, ◌≤◌, ◌<◌, ◌≡◌, refl, sym, ap, ◌∙◌, true, false, Option, some, List, [],
  ◌∷◌, ◌++◌, map, arith, ◌==◌, length, drop, length-drop, le→ltb,
}
use lean_s.Error.{ok}
use lean_s.Bytes.{Bytes, word, word_at}
use lean_s.Sequence.Userdata.{decode_conversation}
use lean_s.Agreement.Fragments.{joined, decode_conversation-replies}
use lean_s.Emulator.Tables.{store_self}
use lean_s.Emulator.Server.{Snap7, State, store}
use lean_s.Emulator.Szl.{
  concat, chunks, is_some, get_szl_data, userdata_fragment_response, first_fragment, open_list,
  handle_szl,
}
use lean_s.Emulator.Fragments.{
  Short, concat-chunks, chunks-Short, Asking, numbers, Answered, run, later-run, fragment-reply,
}
use lean_s.Emulator.Collected.{
  collect, references_of, collect-Answered, szl_case, numbered, Shared, replies-Answered,
}

-- A list of more than 48 n octets and at most 48 more has n + 1 fragments.
length-chunks :
    (fuel n : ℕ) (complete : Bytes)
    → length complete ≤ fuel
    → 48 * n < length complete
    → length complete ≤ 48 * (n + 1)
    → length (chunks fuel complete) ≡ suc n
unfolding chunks
length-chunks zero n [] h lo hi = absurd (omega arith)
length-chunks zero n (b ∷ rest) h lo hi = absurd (omega arith)
length-chunks (suc fuel) n [] h lo hi = absurd (omega arith)
length-chunks (suc fuel) zero (b ∷ rest) h lo hi =
    ap suc
      (ap length (no_more fuel (drop 48 (b ∷ rest)) (omega (arith, length-drop 48 (b ∷ rest)))))
  where
    no_more : (fuel : ℕ) (rest : Bytes) → length rest ≡ 0 → chunks fuel rest ≡ []
    no_more zero rest e = refl
    no_more (suc fuel) [] e = refl
    no_more (suc fuel) (b ∷ rest) e = absurd (omega arith)
length-chunks (suc fuel) (suc n) (b ∷ rest) h lo hi = ap suc (
    length-chunks fuel n (drop 48 (b ∷ rest)) (omega (arith, length-drop 48 (b ∷ rest)))
      (omega (arith, length-drop 48 (b ∷ rest))) (omega (arith, length-drop 48 (b ∷ rest))))

cut_in :
    (fs : List Bytes) (n : ℕ)
    → length fs ≡ suc n
    → (f : Bytes) × (rest : List Bytes) × (fs ≡ f ∷ rest)
cut_in [] n e = absurd (omega arith)
cut_in (f ∷ fs) n e = (f, fs, refl)

module _ (server : Snap7) (classic : server.userdata ≡ 7) {Client : Type 0}
    (same : Discrete Client) where
  open server use {Parsed, Params, Memory, sequence, content, params_sequence, cpu_state}

  -- The table behind the first fragment.
  abbrev opened_table :
      Client → List Bytes → (Client → Option (List Bytes)) → Client → Option (List Bytes)
  opened_table client [] table = table
  opened_table client (g ∷ gs) table = store same client (g ∷ gs) table

  first_fragment-eq :
      (request : Parsed) (client : Client) (f : Bytes) (fs : List Bytes)
      (table : Client → Option (List Bytes))
      → first_fragment server same request client (f ∷ fs) table ≡ (
        userdata_fragment_response server request 1 (is_some fs) f 4 1,
        opened_table client fs table,
      )
  unfolding first_fragment is_some
  first_fragment-eq request client f [] table = refl
  first_fragment-eq request client f (g ∷ gs) table = refl

  open_list-eq :
      (request : Parsed) (client : Client) (id index : ℕ) (szl_data : Bytes)
      (table : Client → Option (List Bytes))
      → open_list server same request client id index (ok (some szl_data)) table
        ≡ first_fragment server same request client
            (chunks
              (length (word id ++ (word index ++ szl_data)))
              (word id ++ (word index ++ szl_data)))
            table
  unfolding open_list
  open_list-eq request client id index szl_data table = refl

  handle_szl-first :
      (s : State Memory Client) (request : Parsed) (params : Params) (client : Client)
      (szl_data f : Bytes) (fs : List Bytes)
      → params_sequence params ≡ 0
      → 4 ≤ length (content request)
      → get_szl_data
          (cpu_state s.memory)
          (word_at (content request) 0)
          (word_at (content request) 2)
        ≡ ok (some szl_data)
      → (let complete =
            word (word_at (content request) 0)
            ++ (word (word_at (content request) 2) ++ szl_data) in
          chunks (length complete) complete ≡ f ∷ fs)
      → handle_szl server same s request params client ≡ (
        userdata_fragment_response server request 1 (is_some fs) f 4 1,
        record s { szl_fragments = opened_table client fs s.szl_fragments },
      )
  unfolding handle_szl
  handle_szl-first s request params client szl_data f fs none_asked long found cut =
      let first : params_sequence params == 0 ≡ true = ground arith in
      rw (first, le→ltb (length (content request)) 4 long)
        (ap (λ k. (k.0, record s { szl_fragments = k.1 }))
          (ap
              (λ k.
                open_list server same request client (word_at (content request) 0)
                  (word_at (content request) 2) k s.szl_fragments)
              found
            ∙ open_list-eq request client (word_at (content request) 0)
                (word_at (content request) 2) szl_data s.szl_fragments
            ∙ ap (λ k. first_fragment server same request client k s.szl_fragments) cut
            ∙ first_fragment-eq request client f fs s.szl_fragments))

  -- The numbers of the replies: the first fragment has the number 1.
  abbrev pub first_numbers : Parsed → List (Parsed × Params) → List (ℕ × ℕ)
  first_numbers request rs = (sequence request, 1) ∷ numbers server classic rs

  -- The run from the first request on, whatever the fragments are.
  opened-run :
      (s : State Memory Client) (request : Parsed) (params : Params) (client : Client) (f : Bytes)
      (fs : List Bytes) (rs : List (Parsed × Params))
      → sequence request < 65536
      → handle_szl server same s request params client ≡ (
        userdata_fragment_response server request 1 (is_some fs) f 4 1,
        record s { szl_fragments = opened_table client fs s.szl_fragments },
      )
      → length rs ≡ length fs
      → Asking server classic rs
      → Short (f ∷ fs)
      → (pdus : List Bytes) × ((run server classic same s client ((request, params) ∷ rs)).0
          ≡ map ok pdus)
        × Answered (first_numbers request rs) (f ∷ fs) pdus
  unfolding run is_some
  opened-run s request params client f [] [] hs step n asking short =
      let (pdu, answered, replied) =
        fragment-reply server classic request 1 false f hs (omega arith) short.0 in
      (pdu ∷ [], ap (λ k. k.0 ∷ []) step ∙ ap (λ k. k ∷ []) answered, (replied, tt))
  opened-run s request params client f (g ∷ gs) (r ∷ rs) hs step n asking short =
      let (pdu, answered, replied) =
        fragment-reply server classic request 1 true f hs (omega arith) short.0 in
      let s' : State Memory Client = record s {
        szl_fragments = store same client (g ∷ gs) s.szl_fragments;
      } in
      let (pdus, answers, rest_replied, none_left) =
        later-run server classic same client g gs (r ∷ rs) s'
          (store_self same client (g ∷ gs) s.szl_fragments) n asking short.1 in
      (
        pdu ∷ pdus,
        ap (λ k. k.0 ∷ (run server classic same k.1 client (r ∷ rs)).0) step
            ∙ ap (λ k. k ∷ (run server classic same s' client (r ∷ rs)).0) answered
            ∙ ap (◌∷◌ (ok pdu)) answers,
        (replied, rest_replied),
      )
  opened-run s request params client f [] (r ∷ rs) hs step n asking short = absurd (omega arith)
  opened-run s request params client f (g ∷ gs) [] hs step n asking short = absurd (omega arith)

  -- The list behind the words of the request.
  abbrev pub complete_list : Parsed → Bytes → Bytes
  complete_list request szl_data =
      word (word_at (content request) 0) ++ (word (word_at (content request) 2) ++ szl_data)

  -- A client asks for a list that is found, of more than 48 n octets and at most 48 more, and then n
  -- times for the next fragment.
  abbrev pub Opens : State Memory Client → Parsed → Params → List (Parsed × Params) → Bytes → Type 0
  Opens s request params rs szl_data =
      (sequence request < 65536)
      × (params_sequence params ≡ 0)
      × (4 ≤ length (content request))
      × (get_szl_data (cpu_state s.memory) (word_at (content request) 0)
            (word_at (content request) 2)
          ≡ ok (some szl_data))
      × Asking server classic rs
      × (48 * length rs < 4 + length szl_data)
      × (4 + length szl_data ≤ 48 * (length rs + 1))

  szl-Answered :
      (s : State Memory Client) (request : Parsed) (params : Params) (client : Client)
      (rs : List (Parsed × Params)) (szl_data : Bytes)
      → Opens s request params rs szl_data
      → (f : Bytes) × (fs : List Bytes) × (pdus : List Bytes) × ((run server classic same s client
            ((request, params) ∷ rs)).0
          ≡ map ok pdus)
        × Answered (first_numbers request rs) (f ∷ fs) pdus
        × (concat (f ∷ fs) ≡ complete_list request szl_data)
        × (length rs ≡ length fs)
  szl-Answered s request params client rs szl_data (hs, none_asked, long, found, asking, lo, hi) =
      let complete = complete_list request szl_data in
      let count =
        length-chunks (length complete) (length rs) complete (omega arith) (omega arith)
          (omega arith) in
      let (f, fs, cut) = cut_in (chunks (length complete) complete) (length rs) count in
      let as_many : length rs ≡ length fs = omega (arith, ap length cut, count) in
      let short : Short (f ∷ fs) = rw cut at (chunks-Short (length complete) complete) in
      let (pdus, answers, replied) =
        opened-run s request params client f fs rs hs
          (handle_szl-first s request params client szl_data f fs none_asked long found cut) as_many
          asking short in
      (
        f,
        fs,
        pdus,
        answers,
        replied,
        ap concat (sym cut) ∙ concat-chunks (length complete) complete (omega arith),
        as_many,
      )

  -- A client that asks for a list which the emulator finds, of more than 48 n octets and at most 48
  -- more, and then n times for the next fragment, each request with a reference of its own, gets
  -- n + 1 replies. Read by the management oracle at the references of their requests, all but the
  -- last say that more is to come, and their payloads are the list behind the words of the
  -- request: nothing is lost, repeated or moved.
  pub szl-conversation :
      (s : State Memory Client) (request : Parsed) (params : Params) (client : Client)
      (rs : List (Parsed × Params)) (szl_data : Bytes)
      → Opens s request params rs szl_data
      → (pdus : List Bytes) × ((run server classic same s client ((request, params) ∷ rs)).0
          ≡ map ok pdus)
        × (collect (references_of (first_numbers request rs)) pdus
            ≡ some (complete_list request szl_data))
  szl-conversation s request params client rs szl_data opens =
      let (f, fs, pdus, answers, replied, whole, as_many) =
        szl-Answered s request params client rs szl_data opens in
      (
        pdus,
        answers,
        collect-Answered (sequence request, 1) (numbers server classic rs) f fs pdus replied
            ∙ ap some whole,
      )

  joined-numbered :
      (ns : List (ℕ × ℕ)) (fs pdus : List Bytes)
      → Answered ns fs pdus
      → (joined (numbered ns fs) ≡ concat fs) × (length (numbered ns fs) ≡ length fs)
  unfolding concat
  joined-numbered [] [] pdus h = (refl, refl)
  joined-numbered [] (f ∷ fs) pdus h = absurd h
  joined-numbered (n ∷ ns) [] pdus h = absurd h
  joined-numbered (n ∷ ns) (f ∷ fs) [] h = absurd h
  joined-numbered ((reference, number) ∷ ns) (f ∷ fs) (pdu ∷ pdus) (e, h) =
      let (whole, count) = joined-numbered ns fs pdus h in (ap (◌++◌ f) whole, ap suc count)

  -- Where such a client uses one reference for all of its requests, the sequence oracle accepts the
  -- replies as one conversation within its bounds, and reassembles the same list.
  pub szl-reassembled :
      (bound size : ℕ) (s : State Memory Client) (request : Parsed) (params : Params)
      (client : Client) (rs : List (Parsed × Params)) (szl_data : Bytes)
      → Opens s request params rs szl_data
      → Shared (sequence request) (numbers server classic rs)
      → length rs < bound
      → 4 + length szl_data ≤ size
      → (pdus : List Bytes) × ((run server classic same s client ((request, params) ∷ rs)).0
          ≡ map ok pdus)
        × (decode_conversation (szl_case (sequence request) bound size) pdus
            ≡ ok (complete_list request szl_data))
  szl-reassembled bound size s request params client rs szl_data opens shared few fits =
      let (f, fs, pdus, answers, replied, whole, as_many) =
        szl-Answered s request params client rs szl_data opens in
      let (joins, count) = joined-numbered (first_numbers request rs) (f ∷ fs) pdus replied in
      let accepted =
        replies-Answered (sequence request) bound size (first_numbers request rs) (f ∷ fs) pdus
          (refl, shared) replied in
      (
        pdus,
        answers,
        decode_conversation-replies (szl_case (sequence request) bound size)
              (record { sequence = 1; unit = 1; payload = f })
              (numbered (numbers server classic rs) fs) pdus accepted
              (omega (arith, count, as_many)) (omega (arith, ap length joins, ap length whole))
            ∙ ap ok (joins ∙ whole),
      )
