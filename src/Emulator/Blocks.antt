-- ===== src/Emulator/Blocks.antt =====
-- The block information and the clock of `MultiItemServer` in integration/run.py.
use lean_s.Prelude.{
  ℕ, ◌+◌, ◌-◌, ◌*◌, Bool, true, not, ◌&&◌, ◌||◌, Option, none, some, [], ◌∷◌, ◌++◌, ltb, leb, ◌==◌,
  if◌then◌else◌, length, take, drop, slice, replicate,
}
use lean_s.Error.{Result, ok, ◌>>=◌}
use lean_s.Bytes.{Bytes, equal, byte_at, pack_word}
use lean_s.Value.Integer.{pos}
use lean_s.Emulator.Server.{Snap7, pack_long, put_at}
use lean_s.Emulator.Szl.{ascii}

unfoldable pub is_digit : ℕ → Bool
is_digit b = leb 0x30 b && leb b 0x39

unfoldable pub all_digits : Bytes → Bool
all_digits [] = true
all_digits (b ∷ bs) = is_digit b && all_digits bs

-- int(bs) of digits, on the number so far
unfoldable pub decimal : ℕ → Bytes → ℕ
decimal n [] = n
decimal n (b ∷ bs) = decimal (n * 10 + (b - 0x30)) bs

-- the native request: five digits between two octets and one
unfoldable pub is_native : Bytes → Bool
is_native raw =
    length raw == 8
    && equal (take 2 raw) (0x30 ∷ 0x41 ∷ [])
    && byte_at raw 7 == 0x41
    && all_digits (slice 2 7 raw)

-- the 78 octets on a block of a number and a size
unfoldable pub block_payload : ℕ → ℕ → Result Bytes
block_payload number size = do
  number_word ← pack_word number
  size_long ← pack_long size
  size_word ← pack_word size
  let start = put_at 11 (0x0a ∷ []) (put_at 0 (0x30 ∷ 0x41 ∷ []) (replicate 78 0)) in
      (let sized = put_at 40 size_word (put_at 14 size_long (put_at 12 number_word start)) in
        (let named =
            put_at 58 (ascii "DB")
              (put_at 50 (ascii "EMULATOR") (put_at 42 (ascii "SNAP7EMU") sized)) in
          ok (put_at 66 (1 ∷ []) named)))

module _ (server : Snap7) where
  open server use {Parsed, Params, Memory, content, db_block, success_response}

  -- the empty reply with an error code in it
  unfoldable pub rejected : Parsed → Params → Result Bytes
  rejected request params = do
    reply ← success_response request params []
    ok (take 20 reply ++ (0x81 ∷ 0x04 ∷ drop 22 reply))

  unfoldable pub block_reply : Parsed → Params → ℕ → Option Bytes → Result Bytes
  block_reply request params number none = rejected request params
  block_reply request params number (some memory) =
      if ltb 65535 number || ltb 65535 (length memory) then rejected request params else (do
        payload ← block_payload number (length memory)
        success_response request params payload)

  unfoldable pub handle_get_block_info : Memory → Parsed → Params → Result Bytes
  handle_get_block_info memory request params =
      let raw = content request in
      let number = decimal 0 (slice 2 7 raw) in
      if not (is_native raw)
      then rejected request params
      else block_reply request params number (db_block memory (pos number))

  unfoldable pub handle_get_clock : Parsed → Params → Result Bytes
  handle_get_clock request params =
      success_response request params
        (0 ∷ 0x19 ∷ 0x26 ∷ 0x09 ∷ 0x07 ∷ 0x14 ∷ 0x05 ∷ 0x59 ∷ 0 ∷ 1 ∷ [])
