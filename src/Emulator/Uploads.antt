-- ===== src/Emulator/Uploads.antt =====
-- An upload from `MultiItemServer` in integration/run.py, as a client receives it.
use lean_s.Prelude.{
  ℕ, ◌+◌, ◌-◌, ◌*◌, ◌≤◌, ◌<◌, ◌≡◌, refl, ap, ◌∙◌, Bool, true, false, not, Option, some, List, [],
  ◌∷◌, ◌++◌, map, arith, ◌==◌, if◌then◌else◌, length, drop, slice, length-take, length-drop,
  drop-drop, take_all, append-nil, lt→ltb, ==_refl,
}
use lean_s.Error.{Result, ok, err, value_error, ◌>>=◌, ◌>>◌, raise_if}
use lean_s.Bytes.{Bytes, word, byte_at}
use lean_s.Bytes.Laws.{take-drop}
use lean_s.Management.{octet}
use lean_s.Sequence.Sections.{sections}
use lean_s.Agreement.Frame.{frame}
use lean_s.Agreement.Sections.{sections-frame}
use lean_s.Emulator.Tables.{store_self}
use lean_s.Emulator.Server.{Snap7, State, UploadContext, store, pack_byte}
use lean_s.Emulator.Upload.{chunk_size, standard_response, next_chunk, handle_upload}

-- A client's view of an upload: the chunks of the replies up to the one that is flagged as the
-- last, with the reference that each has to have. A missing or a further reply is an error.
unfoldable pub receive : List (ℕ × Bytes) → Result Bytes
receive [] = err value_error
receive ((reference, pdu) ∷ replies) =
    let later = receive replies in
    do
      split ← sections pdu 3 reference
      raise_if (not (length split.0 == 2)) value_error
      rest ←
          (if byte_at split.0 1 == 0
            then (if length replies == 0 then ok [] else err value_error)
            else later)
      ok (drop 4 split.1 ++ rest)

-- A slice that reaches the end.
rest_of :
    (offset : ℕ) (payload : Bytes)
    → length payload ≤ offset + 200
    → slice offset (offset + 200) payload ≡ drop offset payload
rest_of offset payload h =
    take_all (offset + 200 - offset) (drop offset payload)
      (omega (arith, length-drop offset payload))

-- A slice, and what is behind it.
chunk-rest :
    (offset : ℕ) (payload : Bytes)
    → slice offset (offset + 200) payload ++ drop (offset + 200) payload ≡ drop offset payload
chunk-rest offset payload =
    let n : offset + 200 - offset ≡ 200 = omega arith in
    rw (n, ← drop-drop) (take-drop 200 (drop offset payload))

module _ (server : Snap7) (acknowledges : server.ack_data ≡ 3) (classic : server.upload < 256) where
  open server use {Parsed, Memory, sequence, upload}

  pub standard_response-frame :
      (request : Parsed) (parameters content : Bytes)
      → sequence request < 65536
      → length parameters < 65536
      → length content < 65536
      → standard_response server request parameters content
        ≡ ok (frame 3 (sequence request) parameters content)
  unfolding standard_response pack_byte
  standard_response-frame request parameters content hs hp hc = rw acknowledges (ground arith)

  -- the reply that carries a chunk
  abbrev chunk_reply : ℕ → Bytes → Bool → Bytes
  chunk_reply reference chunk last =
      frame 3 reference (upload ∷ (if last then 0 else 1) ∷ [])
        (word (length chunk) ++ (0x00 ∷ 0xfb ∷ chunk))

  receive-last :
      (reference : ℕ) (chunk : Bytes)
      → receive ((reference, chunk_reply reference chunk true) ∷ []) ≡ ok chunk
  unfolding receive
  receive-last reference chunk = rw sections-frame (ap ok (append-nil chunk))

  receive-more :
      (reference : ℕ) (chunk rest : Bytes) (replies : List (ℕ × Bytes))
      → receive replies ≡ ok rest
      → receive ((reference, chunk_reply reference chunk false) ∷ replies) ≡ ok (chunk ++ rest)
  unfolding receive
  receive-more reference chunk rest replies e = rw (sections-frame, e) refl

  module _ {Client : Type 0} (same : Discrete Client) where
    next_chunk-eq :
        (request : Parsed) (client : Client) (context : UploadContext)
        (table : Client → Option UploadContext)
        → sequence request < 65536
        → (let chunk = slice context.offset (context.offset + 200) context.payload in
            next_chunk server same request client (some context) table ≡ (
              ok (
                  chunk_reply
                    (sequence request)
                    chunk
                    (context.offset + length chunk == length context.payload)),
              store same client
                  (record { payload = context.payload; offset = context.offset + length chunk })
                  table,
            ))
    unfolding next_chunk chunk_size octet
    next_chunk-eq request client context table hs =
        let chunk = slice context.offset (context.offset + 200) context.payload in
        let short : length chunk ≤ 200 = omega (
          arith,
          length-take (context.offset + 200 - context.offset) (drop context.offset context.payload),
        ) in
        rw (lt→ltb upload 256 classic, lt→ltb (length chunk) 65536 (omega arith))
          (ap
            (λ k. (
              k,
              store same client
                  (record { payload = context.payload; offset = context.offset + length chunk })
                  table,
            ))
            (standard_response-frame request
              (upload
                ∷ (if context.offset + length chunk == length context.payload then 0 else 1)
                ∷ [])
              (word (length chunk) ++ (0x00 ∷ 0xfb ∷ chunk)) hs (omega arith) (omega arith)))

    -- the answers to requests for the next chunk, one after the other
    unfoldable pub upload_run :
        State Memory Client → Client → List Parsed → List (Result Bytes) × State Memory Client
    upload_run s client [] = ([], s)
    upload_run s client (request ∷ rest) =
        let (answer, s') = handle_upload server same s request client in
        let (answers, s'') = upload_run s' client rest in (answer ∷ answers, s'')

    -- replies with the references of their requests
    abbrev pub labelled : List Parsed → List Bytes → List (ℕ × Bytes)
    labelled [] pdus = []
    labelled (r ∷ rs) [] = []
    labelled (r ∷ rs) (pdu ∷ pdus) = (sequence r, pdu) ∷ labelled rs pdus

    abbrev pub AllWords : List Parsed → Type 0
    AllWords [] = Unit
    AllWords (r ∷ rs) = (sequence r < 65536) × AllWords rs

    -- the state behind one more chunk
    abbrev sent : State Memory Client → Client → UploadContext → State Memory Client
    sent s client context = record s {
      uploads =
          store same client
            (record {
              payload = context.payload;
              offset =
                  context.offset
                  + length (slice context.offset (context.offset + 200) context.payload);
            })
            s.uploads;
    }

    handle_upload-eq :
        (s : State Memory Client) (request : Parsed) (client : Client) (context : UploadContext)
        → s.uploads client ≡ some context
        → sequence request < 65536
        → (let chunk = slice context.offset (context.offset + 200) context.payload in
            handle_upload server same s request client ≡ (
              ok (
                  chunk_reply
                    (sequence request)
                    chunk
                    (context.offset + length chunk == length context.payload)),
              sent s client context,
            ))
    unfolding handle_upload
    handle_upload-eq s request client context e hs =
        ap (λ k. (k.0, record s { uploads = k.1 }))
          (ap (λ k. next_chunk server same request client k s.uploads) e
            ∙ next_chunk-eq request client context s.uploads hs)

    -- A client that asks as often as there are chunks left receives what is left of the payload,
    -- and the context stands at its end.
    pub upload-received :
        (s : State Memory Client) (client : Client) (payload : Bytes) (offset : ℕ) (r : Parsed)
        (rs : List Parsed)
        → s.uploads client ≡ some (record { payload = payload; offset = offset })
        → AllWords (r ∷ rs)
        → offset + 200 * length rs < length payload
        → length payload ≤ offset + 200 * (length rs + 1)
        → (pdus : List Bytes) × ((upload_run s client (r ∷ rs)).0 ≡ map ok pdus)
          × (receive (labelled (r ∷ rs) pdus) ≡ ok (drop offset payload))
          × ((upload_run s client (r ∷ rs)).1.uploads client
              ≡ some (record { payload = payload; offset = length payload }))
    unfolding upload_run
    upload-received s client payload offset r [] e (hs, words) lo hi =
        let context : UploadContext = record { payload = payload; offset = offset } in
        let all = rest_of offset payload (omega arith) in
        let end : offset + length (drop offset payload) ≡ length payload =
          omega (arith, length-drop offset payload) in
        let last : offset + length (drop offset payload) == length payload ≡ true =
          rw end (==_refl (length payload)) in
        let step = handle_upload-eq s r client context e hs in
        (
          chunk_reply (sequence r) (drop offset payload) true ∷ [],
          ap (λ k. k.0 ∷ []) step
              ∙ ap (λ k. ok (chunk_reply (sequence r) k (offset + length k == length payload)) ∷ [])
                  all
              ∙ ap (λ k. ok (chunk_reply (sequence r) (drop offset payload) k) ∷ []) last,
          receive-last (sequence r) (drop offset payload),
          ap (λ k. k.1.uploads client) step
              ∙ store_self same client _ s.uploads
              ∙ ap (λ k. some (record { payload = payload; offset = k }))
                  (ap (λ k. offset + length k) all ∙ end),
        )
    upload-received s client payload offset r (r' ∷ rs) e (hs, words) lo hi =
        let context : UploadContext = record { payload = payload; offset = offset } in
        let chunk = slice offset (offset + 200) payload in
        let full : offset + length chunk ≡ offset + 200 = omega (
          arith,
          length-take (offset + 200 - offset) (drop offset payload),
          length-drop offset payload,
        ) in
        let more : offset + length chunk == length payload ≡ false = ground arith in
        let step = handle_upload-eq s r client context e hs in
        let s' = sent s client context in
        let kept : s'.uploads client ≡ some (record { payload = payload; offset = offset + 200 }) =
          store_self same client _ s.uploads
          ∙ ap (λ k. some (record { payload = payload; offset = k })) full in
        let (pdus, answers, received, ended) =
          upload-received s' client payload (offset + 200) r' rs kept words (omega arith)
            (omega arith) in
        (
          chunk_reply (sequence r) chunk false ∷ pdus,
          ap (λ k. k.0 ∷ (upload_run k.1 client (r' ∷ rs)).0) step
              ∙ ap (λ k. ok (chunk_reply (sequence r) chunk k) ∷ (upload_run s' client (r' ∷ rs)).0)
                  more
              ∙ ap (◌∷◌ (ok (chunk_reply (sequence r) chunk false))) answers,
          receive-more (sequence r) chunk (drop (offset + 200) payload) _ received
              ∙ ap ok (chunk-rest offset payload),
          ap (λ k. (upload_run k.1 client (r' ∷ rs)).1.uploads client) step ∙ ended,
        )
