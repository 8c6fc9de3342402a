-- ===== src/Emulator/Upload.antt =====
-- The uploads of `MultiItemServer` in integration/run.py: a block, sent in chunks of 200 octets.
use lean_s.Prelude.{
  ℕ, zero, suc, ◌+◌, ◌-◌, ◌*◌, ◌/◌, ◌%◌, Bool, false, true, not, ◌&&◌, ◌||◌, Option, none, some, [],
  ◌∷◌, ◌++◌, ltb, leb, ◌==◌, if◌then◌else◌, length, slice, replicate,
}
use lean_s.Error.{Result, ok, err, value_error, ◌>>=◌}
use lean_s.Bytes.{Bytes, equal, byte_at, pack_word}
use lean_s.Management.{octet}
use lean_s.Value.Integer.{ℤ, pos, negsuc}
use lean_s.Emulator.Server.{
  Snap7, State, UploadContext, store, pack_byte, pack_long, pack_word_of, put_at,
}
use lean_s.Emulator.Blocks.{is_digit}

-- the octets that `int` strips: blanks and the controls from 9 to 13
unfoldable pub is_space : ℕ → Bool
is_space b = b == 0x20 || leb 9 b && leb b 13

unfoldable pub strip_left : Bytes → Bytes
strip_left [] = []
strip_left (b ∷ bs) = if is_space b then strip_left bs else b ∷ bs

-- Blanks to the end, and nothing else.
unfoldable pub all_space : Bytes → Bool
all_space [] = true
all_space (b ∷ bs) = is_space b && all_space bs

-- The digits of a number, with single underscores between them, up to blanks at the end. The
-- flag says that a digit has just been read.
unfoldable pub digits : Bool → ℕ → Bytes → Option ℕ
digits after n [] = if after then some n else none
digits after n (b ∷ bs) =
    let read = digits true (n * 10 + (b - 0x30)) bs in
    let skipped = digits false n bs in
    if is_digit b
    then read
    else if b == 0x5f && after
    then skipped
    else if after && all_space (b ∷ bs)
    then some n
    else none

unfoldable pub negated : ℕ → ℤ
negated zero = pos 0
negated (suc n) = negsuc n

unfoldable pub integer_of : Bool → Option ℕ → Result ℤ
integer_of negative none = err value_error
integer_of negative (some n) = ok (if negative then negated n else pos n)

unfoldable pub signed_integer : Bytes → Result ℤ
signed_integer [] = err value_error
signed_integer (b ∷ bs) =
    if b == 0x2d
    then integer_of true (digits false 0 bs)
    else if b == 0x2b
    then integer_of false (digits false 0 bs)
    else integer_of false (digits false 0 (b ∷ bs))

-- int(text) of bytes
unfoldable pub int : Bytes → Result ℤ
int text = signed_integer (strip_left text)

-- the decimal digits of n in front of some octets; as many steps as n has digits are enough
unfoldable pub decimal_onto : ℕ → ℕ → Bytes → Bytes
decimal_onto zero n behind = behind
decimal_onto (suc fuel) n behind =
    let shown = (0x30 + n % 10) ∷ behind in
    let more = decimal_onto fuel (n / 10) shown in if ltb n 10 then shown else more

-- f"{n:05d}" for a number of at most 20 digits
unfoldable pub five_digits : ℕ → Bytes
five_digits n = let shown = decimal_onto 20 n [] in replicate (5 - length shown) 0x30 ++ shown

-- the 36 octets in front of a block
unfoldable pub compact_header : ℤ → ℕ → Result Bytes
compact_header number size = do
  number_word ← pack_word_of number
  total ← pack_long (36 + size)
  size_word ← pack_word size
  ok (
      put_at 34 size_word
        (put_at 8 total (put_at 6 number_word (put_at 5 (0x0a ∷ []) (replicate 36 0)))))

unfoldable pub chunk_size : ℕ
chunk_size = 200

module _ (server : Snap7) where
  open server use {
    Parsed, Params, Memory, ack_data, start_upload, upload, sequence, raw_parameters, db_block,
    error_response,
  }

  unfoldable pub standard_response : Parsed → Bytes → Bytes → Result Bytes
  standard_response request parameters payload = do
    kind ← pack_byte ack_data
    reference ← pack_word (sequence request)
    parameter_size ← pack_word (length parameters)
    data_size ← pack_word (length payload)
    ok (
        0x32
        ∷ kind
        ∷ 0
        ∷ 0
        ∷ (reference ++ (parameter_size ++ (data_size ++ (0 ∷ 0 ∷ (parameters ++ payload))))))

  module _ {Client : Type 0} (same : Discrete Client) where
    -- The upload of a block, whose header is built before the context is kept.
    unfoldable pub begin_upload :
        State Memory Client
        → Parsed
        → Client
        → Bytes
        → Result Bytes
        → Result Bytes × State Memory Client
    begin_upload s request client mc7 (err raised) = (err raised, s)
    begin_upload s request client mc7 (ok compact) = (
      (do
        function ← octet start_upload
        standard_response request
            (function
              ∷ 0
              ∷ 0
              ∷ 0
              ∷ 0
              ∷ 0
              ∷ 0
              ∷ 1
              ∷ 0
              ∷ 0
              ∷ 0
              ∷ five_digits (length compact + length mc7))
            []),
      record s {
        uploads = store same client (record { payload = compact ++ mc7; offset = 0 }) s.uploads;
      },
    )

    unfoldable pub find_block :
        State Memory Client
        → Parsed
        → Client
        → ℤ
        → Option Bytes
        → Result Bytes × State Memory Client
    find_block s request client number none = (error_response request 0x8104, s)
    find_block s request client number (some mc7) =
        begin_upload s request client mc7 (compact_header number (length mc7))

    unfoldable pub numbered_upload :
        State Memory Client → Parsed → Client → Result ℤ → Result Bytes × State Memory Client
    numbered_upload s request client (err raised) = (error_response request 0x8104, s)
    numbered_upload s request client (ok number) =
        if not (byte_at (raw_parameters request) 11 == 0x41)
        then (error_response request 0x8104, s)
        else find_block s request client number (db_block s.memory number)

    unfoldable pub handle_start_upload :
        State Memory Client → Parsed → Client → Result Bytes × State Memory Client
    handle_start_upload s request client =
        let parameters = raw_parameters request in
        if not (length parameters == 18)
          || not (equal (slice 9 12 parameters) (0x5f ∷ 0x30 ∷ 0x41 ∷ []))
        then (error_response request 0x8104, s)
        else numbered_upload s request client (int (slice 12 17 parameters))

    -- The next chunk of an upload, and the table behind it.
    unfoldable pub next_chunk :
        Parsed
        → Client
        → Option UploadContext
        → (Client → Option UploadContext)
        → Result Bytes × (Client → Option UploadContext)
    next_chunk request client none table = (error_response request 0x8104, table)
    next_chunk request client (some context) table =
        let chunk = slice context.offset (context.offset + chunk_size) context.payload in
        let offset = context.offset + length chunk in
        let is_last = offset == length context.payload in
        (
          (do
            function ← octet upload
            size ← pack_word (length chunk)
            standard_response request (function ∷ (if is_last then 0 else 1) ∷ [])
                (size ++ (0x00 ∷ 0xfb ∷ chunk))),
          store same client (record { payload = context.payload; offset = offset }) table,
        )

    unfoldable pub handle_upload :
        State Memory Client → Parsed → Client → Result Bytes × State Memory Client
    handle_upload s request client =
        let (answer, table) = next_chunk request client (s.uploads client) s.uploads in
        (answer, record s { uploads = table })
