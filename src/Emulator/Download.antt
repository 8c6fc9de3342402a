-- ===== src/Emulator/Download.antt =====
-- A block of `MultiItemServer` in integration/run.py, from the start of its upload to the last chunk.
use lean_s.Prelude.{
  ℕ, zero, suc, ◌+◌, ◌-◌, ◌*◌, ◌/◌, ◌%◌, ◌≤◌, ◌<◌, ◌≡◌, refl, sym, ap, ◌∙◌, true, some, List, [],
  ◌∷◌, ◌++◌, map, arith, lt→ltb, ◌==◌, length, take, drop, slice, length-append, length-replicate,
  replicate,
}
use lean_s.Error.{ok}
use lean_s.Bytes.{Bytes, word, byte_at, equal}
use lean_s.Bytes.Laws.{byte_at-drop, eq_of_equal}
use lean_s.Management.{octet}
use lean_s.Value.Integer.{ℤ, pos}
use lean_s.Agreement.Frame.{frame}
use lean_s.Emulator.Tables.{store_self}
use lean_s.Emulator.Server.{Snap7, State, store, pack_long, pack_word_of, put_at}
use lean_s.Emulator.Upload.{
  decimal_onto, five_digits, compact_header, int, begin_upload, find_block, numbered_upload,
  handle_start_upload,
}
use lean_s.Emulator.Uploads.{
  receive, standard_response-frame, AllWords, labelled, upload_run, upload-received,
}

byte_at-take : (n : ℕ) (a : Bytes) (i : ℕ) → i < n → byte_at (take n a) i ≡ byte_at a i
byte_at-take zero a i h = absurd (omega arith)
byte_at-take (suc n) [] i h = refl
byte_at-take (suc n) (x ∷ a) zero h = refl
byte_at-take (suc n) (x ∷ a) (suc i) h = byte_at-take n a i (omega arith)

-- Parameters that hold the text _0A from 9 on hold the type A at 11.
block_type :
    (parameters : Bytes)
    → equal (slice 9 12 parameters) (0x5f ∷ 0x30 ∷ 0x41 ∷ []) ≡ true
    → byte_at parameters 11 ≡ 0x41
block_type parameters h =
    sym (byte_at-drop parameters 9 2)
    ∙ sym (byte_at-take 3 (drop 9 parameters) 2 (omega arith))
    ∙ ap (λ k. byte_at k 2) (eq_of_equal (slice 9 12 parameters) (0x5f ∷ 0x30 ∷ 0x41 ∷ []) h)

pack_long-eq : (n : ℕ) → n < 4294967296 → pack_long n ≡ ok (word (n / 65536) ++ word (n % 65536))
unfolding pack_long
pack_long-eq n h =
    rw (lt→ltb (n / 65536) 65536 (omega arith), lt→ltb (n % 65536) 65536 (omega arith)) refl

-- the 36 octets in front of a block, with the number and the sizes in their places
compact_header-eq :
    (number size : ℕ)
    → number < 65536
    → size < 65536
    → (h : Bytes) × (compact_header (pos number) size ≡ ok h) × (length h ≡ 36)
unfolding compact_header pack_word_of put_at
compact_header-eq number size hn hs = (
  put_at 34 (word size) (
      put_at 8 (word ((36 + size) / 65536) ++ word ((36 + size) % 65536))
        (put_at 6 (word number) (put_at 5 (0x0a ∷ []) (replicate 36 0)))),
  rw (lt→ltb number 65536 hn, pack_long-eq (36 + size) (omega arith), lt→ltb size 65536 hs) refl,
  refl,
)

length-decimal_onto :
    (fuel n : ℕ) (behind : Bytes) → length (decimal_onto fuel n behind) ≤ fuel + length behind
unfolding decimal_onto
length-decimal_onto zero n behind = omega arith
length-decimal_onto (suc fuel) n behind =
    ground (arith, length-decimal_onto fuel (n / 10) ((0x30 + n % 10) ∷ behind))

length-five_digits : (n : ℕ) → length (five_digits n) ≤ 25
unfolding five_digits
length-five_digits n =
    let shown = decimal_onto 20 n [] in
    omega (
      arith,
      length-append (replicate (5 - length shown) 0x30) shown,
      length-replicate (5 - length shown) (let z : ℕ = 0x30 in z),
      length-decimal_onto 20 n [],
    )

module _ (server : Snap7) (acknowledges : server.ack_data ≡ 3) (starts : server.start_upload < 256)
    (classic : server.upload < 256) {Client : Type 0} (same : Discrete Client) where
  open server use {Parsed, Memory, sequence, raw_parameters, db_block}

  -- the state where a client has an upload before it
  abbrev kept : State Memory Client → Client → Bytes → State Memory Client
  kept s client payload = record s {
    uploads = store same client (record { payload = payload; offset = 0 }) s.uploads;
  }

  begin_upload-eq :
      (s : State Memory Client) (request : Parsed) (client : Client) (mc7 compact : Bytes)
      → sequence request < 65536
      → (answer : Bytes) × (begin_upload server same s request client mc7 (ok compact)
          ≡ (ok answer, kept s client (compact ++ mc7)))
  unfolding begin_upload octet
  begin_upload-eq s request client mc7 compact hs =
      let shown = five_digits (length compact + length mc7) in
      let parameters : Bytes =
        server.start_upload ∷ 0 ∷ 0 ∷ 0 ∷ 0 ∷ 0 ∷ 0 ∷ 1 ∷ 0 ∷ 0 ∷ 0 ∷ shown in
      (
        frame 3 (sequence request) parameters [],
        rw (lt→ltb server.start_upload 256 starts) (
            ap (λ k. (k, kept s client (compact ++ mc7)))
              (standard_response-frame server acknowledges classic request parameters [] hs
                (omega (arith, length-five_digits (length compact + length mc7))) (omega arith))),
      )

  handle_start_upload-eq :
      (s : State Memory Client) (request : Parsed) (client : Client) (number : ℤ) (mc7 : Bytes)
      → length (raw_parameters request) ≡ 18
      → equal (slice 9 12 (raw_parameters request)) (0x5f ∷ 0x30 ∷ 0x41 ∷ []) ≡ true
      → int (slice 12 17 (raw_parameters request)) ≡ ok number
      → db_block s.memory number ≡ some mc7
      → handle_start_upload server same s request client
        ≡ begin_upload server same s request client mc7 (compact_header number (length mc7))
  unfolding handle_start_upload numbered_upload find_block
  handle_start_upload-eq s request client number mc7 long text parsed found =
      let typed : byte_at (raw_parameters request) 11 == 0x41 ≡ true =
        rw (block_type (raw_parameters request) text) refl in
      let eighteen : length (raw_parameters request) == 18 ≡ true = rw long refl in
      rw (eighteen, text, parsed, typed, found) refl

  -- A client that starts the upload of a block of number below 65536 and less than 65536 octets, and
  -- then asks as often as the header and the block have chunks of 200 octets, is answered each time
  -- and receives a header of 36 octets and the block.
  pub upload-conversation :
      (s : State Memory Client) (request : Parsed) (client : Client) (number : ℕ) (mc7 : Bytes)
      (r : Parsed) (rs : List Parsed)
      → sequence request < 65536
      → length (raw_parameters request) ≡ 18
      → equal (slice 9 12 (raw_parameters request)) (0x5f ∷ 0x30 ∷ 0x41 ∷ []) ≡ true
      → int (slice 12 17 (raw_parameters request)) ≡ ok (pos number)
      → db_block s.memory (pos number) ≡ some mc7
      → number < 65536
      → length mc7 < 65536
      → AllWords server acknowledges classic same (r ∷ rs)
      → 200 * length rs < 36 + length mc7
      → 36 + length mc7 ≤ 200 * (length rs + 1)
      → (answer : Bytes) × (t : State Memory Client) × (header : Bytes) × (pdus : List Bytes)
        × (handle_start_upload server same s request client ≡ (ok answer, t))
        × ((upload_run server acknowledges classic same t client (r ∷ rs)).0 ≡ map ok pdus)
        × (receive (labelled server acknowledges classic same (r ∷ rs) pdus) ≡ ok (header ++ mc7))
        × (length header ≡ 36)
  upload-conversation s request client number mc7 r rs hs long text parsed found hn hm words lo hi =
      let (header, built, sized) = compact_header-eq number (length mc7) hn hm in
      let (answer, started) = begin_upload-eq s request client mc7 header hs in
      let t = kept s client (header ++ mc7) in
      let (pdus, answers, received, ended) =
        upload-received server acknowledges classic same t client (header ++ mc7) 0 r rs
          (store_self same client (record { payload = header ++ mc7; offset = 0 }) s.uploads) words
          (omega (arith, length-append header mc7, sized))
          (omega (arith, length-append header mc7, sized)) in
      (
        answer,
        t,
        header,
        pdus,
        handle_start_upload-eq s request client (pos number) mc7 long text parsed found
            ∙ ap (begin_upload server same s request client mc7) built
            ∙ started,
        answers,
        received,
        sized,
      )
