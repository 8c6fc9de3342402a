-- ===== src/Emulator/Exchange.antt =====
-- Whole multi-item exchanges with `MultiItemServer` in integration/run.py: what the sequence oracle
-- makes of the replies, and what the memory holds behind them.
use lean_s.Prelude.{
  ℕ, ◌≤◌, ◌<◌, ◌≡◌, refl, Bool, false, List, [], ◌∷◌, arith, lt→ltb, ◌==◌, ==_refl, if◌then◌else◌,
  length,
}
use lean_s.Error.{ok}
use lean_s.Bytes.{Bytes}
use lean_s.Bytes.Laws.{equal_refl}
use lean_s.Conversation.Types.{MemoryRange}
use lean_s.Sequence.Multi.{ItemResult, decode_items, decode_multi}
use lean_s.Agreement.Frame.{frame}
use lean_s.Agreement.Sections.{sections-frame}
use lean_s.Emulator.Server.{Snap7, pack_byte}
use lean_s.Emulator.Areas.{item_at, is_single, response_header}

module _ (server : Snap7) (acknowledges : server.ack_data ≡ 3) where
  open server use {Parsed, Memory, sequence, raw_parameters, write_memory}

  pub response_header-frame :
      (request : Parsed) (function count : ℕ) (content : Bytes)
      → sequence request < 65536
      → function < 256
      → count < 256
      → length content < 65536
      → response_header server request function count content
        ≡ ok (frame 3 (sequence request) (function ∷ count ∷ []) content)
  unfolding response_header pack_byte
  response_header-frame request function count content hs hf hc hl =
      rw
        (
          acknowledges,
          lt→ltb (sequence request) 65536 hs,
          lt→ltb (length content) 65536 hl,
          lt→ltb function 256 hf,
          lt→ltb count 256 hc,
        )
        refl

  pub decode_multi-frame :
      (reference : ℕ) (write : Bool) (content : Bytes) (ranges : List MemoryRange)
      (results : List ItemResult)
      → decode_items write content 0 ranges ≡ ok (results, length content)
      → decode_multi
          (frame 3 reference ((if write then 5 else 4) ∷ length ranges ∷ []) content)
          reference
          write
          ranges
        ≡ ok results
  unfolding decode_multi
  decode_multi-frame reference write content ranges results e =
      rw
        (
          sections-frame,
          equal_refl ((if write then 5 else 4) ∷ length ranges ∷ []),
          e,
          ==_refl (length content),
        )
        refl

  pub is_single-many :
      (request : Parsed) (count : ℕ)
      → item_at (raw_parameters request) 1 ≡ ok count
      → 2 ≤ count
      → is_single server request ≡ ok false
  unfolding is_single
  is_single-many request count e h =
      let several : count == 1 ≡ false = ground arith in rw (e, several) refl
