-- ===== src/Tests/Wire.antt =====
-- The wire formats: encoders and decoders at concrete ranges and PDUs.
use lean_s.Prelude.{
  ℕ, ◌≡◌, refl, ◌&&◌, true, false, none, some, List, [], ◌∷◌, ◌≤◌, arith, length, if◌then◌else◌,
  ◌==◌, drop,
}
use lean_s.Error.{ok, ◌>>=◌}
use lean_s.Bytes.{Bytes, byte_at}
use lean_s.Conversation.{
  MemoryRange, address, addresses, packet, payload, write_data, valid_range, valid_ranges, request,
}
use lean_s.Conversation.Types.{success, failure}
use lean_s.Sequence.Sections.{sections}
use lean_s.Sequence.Request.{check_request}
use lean_s.Sequence.Multi.{ItemResult, decode_multi, decode_items, write_item, item_result}
use lean_s.Sequence.Userdata.{
  Case, fragment, fragments, valid_parameters, valid_payload, decode_conversation,
}
use lean_s.Sequence.Userdata.Bounds.{decode_conversation-bounds}
use lean_s.Session.Config.{Config}
use lean_s.Session.Response.{answered, response}
use lean_s.Management.{Decoded, Category, protocol, decode}
use lean_s.Operation.Userdata.{decode_userdata}
use lean_s.Peer.Reply.{Header, reply}
use lean_s.Agreement.Sections.{sections-packet}
use lean_s.Agreement.Request.{check_request-request}
use lean_s.Agreement.Response.{response-decode_multi}
use lean_s.Agreement.Reply.{complete_reply, decode-decode_userdata}
use lean_s.Agreement.Fragments.{Chunk, replies, decode_conversation-replies}
use lean_s.Agreement.Verdicts.{verdict, decode-reply}

sections-packet_example :
    (packet 3 7 (4 ∷ 1 ∷ []) (0xff ∷ []) >>= λ pdu. sections pdu 3 7) ≡ ok (4 ∷ 1 ∷ [], 0xff ∷ [])
sections-packet_example =
    sections-packet 3 7 (4 ∷ 1 ∷ []) (0xff ∷ []) (omega arith) (omega arith) (omega arith)
      (omega arith)

abbrev two_ranges : List MemoryRange
two_ranges =
    record { db_number = 1; start = 0; count = 3 }
    ∷ record { db_number = 2; start = 300; count = 2 }
    ∷ []

abbrev two_writes : Bytes
two_writes =
    0x32 ∷ 1 ∷ 0 ∷ 0 ∷ 0 ∷ 7 ∷ 0 ∷ 26 ∷ 0 ∷ 14 ∷ 5 ∷ 2 ∷ 0x12 ∷ 0x0a ∷ 0x10 ∷ 2 ∷ 0 ∷ 3 ∷ 0 ∷ 1
    ∷ 0x84 ∷ 0 ∷ 0 ∷ 0 ∷ 0x12 ∷ 0x0a ∷ 0x10 ∷ 2 ∷ 0 ∷ 2 ∷ 0 ∷ 2 ∷ 0x84 ∷ 0 ∷ 9 ∷ 96 ∷ 0 ∷ 4 ∷ 0 ∷ 24
    ∷ 0 ∷ 29 ∷ 58 ∷ 0 ∷ 0 ∷ 4 ∷ 0 ∷ 16 ∷ 52 ∷ 81 ∷ []

two_writes_built : request 7 two_ranges true ≡ ok (some two_writes)
unfolding request addresses address packet payload write_data valid_range valid_ranges
two_writes_built = refl

check_request-request_example : check_request two_writes 7 true two_ranges ≡ ok tt
check_request-request_example = check_request-request 7 two_ranges true two_writes two_writes_built

abbrev written : Config
written = record {
  write = true;
  allow = false;
  budget = 2;
  reference = 7;
  locations =
      record {
        range = record { db_number = 1; start = 0; count = 3 };
        item_index = some 0;
        chunk_byte_offset = 0;
      }
      ∷ record {
        range = record { db_number = 2; start = 300; count = 2 };
        item_index = none;
        chunk_byte_offset = 0;
      }
      ∷ [];
}

abbrev statuses : Bytes
statuses = 0x32 ∷ 3 ∷ 0 ∷ 0 ∷ 0 ∷ 7 ∷ 0 ∷ 2 ∷ 0 ∷ 2 ∷ 0 ∷ 0 ∷ 5 ∷ 2 ∷ 255 ∷ 10 ∷ []

abbrev status_items : List ItemResult
status_items = ItemResult.success none ∷ ItemResult.failure 10 ∷ []

statuses_decoded : decode_multi statuses 7 true two_ranges ≡ ok status_items
unfolding decode_multi decode_items sections write_item item_result
statuses_decoded = refl

response-decode_multi_example : response written statuses ≡ answered (success ∷ failure 10 ∷ [])
response-decode_multi_example = response-decode_multi written statuses status_items statuses_decoded

abbrev blocks_header : Header
blocks_header = record {
  group = 3;
  subfunction = 2;
  sequence = 0xff;
  unit = 0x51;
  flag = 0;
  transport = 9;
  code = 255;
}

abbrev blocks_reply : Bytes
blocks_reply =
    0x32 ∷ 7 ∷ 0 ∷ 0 ∷ 0 ∷ 9 ∷ 0 ∷ 12 ∷ 0 ∷ 6 ∷ 0 ∷ 1 ∷ 0x12 ∷ 8 ∷ 0x12 ∷ 0x83 ∷ 2 ∷ 0xff ∷ 0x51 ∷ 0
    ∷ 0 ∷ 0 ∷ 0xff ∷ 9 ∷ 0 ∷ 2 ∷ 0x11 ∷ 0x22 ∷ []

blocks_reply_built : reply 9 blocks_header (0x11 ∷ 0x22 ∷ []) ≡ ok blocks_reply
unfolding reply
blocks_reply_built = refl

-- the null acknowledgement of a clock that is set
abbrev clock_header : Header
clock_header = record {
  group = 7;
  subfunction = 2;
  sequence = 0;
  unit = 0;
  flag = 0;
  transport = 0;
  code = 10;
}

abbrev clock_reply : Bytes
clock_reply =
    0x32 ∷ 7 ∷ 0 ∷ 0 ∷ 0 ∷ 9 ∷ 0 ∷ 12 ∷ 0 ∷ 4 ∷ 0 ∷ 1 ∷ 0x12 ∷ 8 ∷ 0x12 ∷ 0x87 ∷ 2 ∷ 0 ∷ 0 ∷ 0 ∷ 0
    ∷ 0 ∷ 10 ∷ 0 ∷ 0 ∷ 0 ∷ []

clock_reply_built : reply 9 clock_header [] ≡ ok clock_reply
unfolding reply
clock_reply_built = refl

clock_acknowledged :
    verdict clock_header []
    ≡ Decoded.accept (record {
      payload = [];
      sequence = 0;
      data_unit_reference = 0;
      has_more_data = false;
      return_code = 10;
      transport_size = 0;
    })
clock_acknowledged = refl

decode-reply_example :
    decode clock_reply 9 7 2
    ≡ (if 9 == 9 && 7 == 7 && 2 == 2 then verdict clock_header [] else Decoded.reject protocol)
decode-reply_example =
    decode-reply 9 9 7 2 clock_header [] clock_reply clock_reply_built (omega arith)

blocks_userdata :
    decode_userdata blocks_reply 9 3 2 ≡ lean_s.Operation.Userdata.accept (0x11 ∷ 0x22 ∷ [])
unfolding decode_userdata
blocks_userdata = refl

decode-decode_userdata_example : decode blocks_reply 9 3 2 ≡ (
    if byte_at (drop 22 blocks_reply) 1 == 9
    then Decoded.accept (complete_reply blocks_reply (0x11 ∷ 0x22 ∷ []))
    else Decoded.reject Category.protocol)
decode-decode_userdata_example =
    decode-decode_userdata blocks_reply (0x11 ∷ 0x22 ∷ []) 9 3 2 (omega arith) blocks_userdata

abbrev block_case : Case
block_case = record {
  reference = 9;
  expected_group = 3;
  expected_subfunction = 2;
  maximum_fragments = 2;
  maximum_bytes = 3;
}

abbrev first_chunk : Chunk
first_chunk = record { sequence = 0xff; unit = 0x51; payload = 0x33 ∷ [] }

abbrev last_chunk : Chunk
last_chunk = record { sequence = 1; unit = 0; payload = 0x11 ∷ 0x22 ∷ [] }

abbrev block_replies : List Bytes
block_replies =
    (0x32 ∷ 7 ∷ 0 ∷ 0 ∷ 0 ∷ 9 ∷ 0 ∷ 12 ∷ 0 ∷ 5 ∷ 0 ∷ 1 ∷ 0x12 ∷ 8 ∷ 0x12 ∷ 0x83 ∷ 2 ∷ 0xff ∷ 0x51
      ∷ 1 ∷ 0 ∷ 0 ∷ 0xff ∷ 9 ∷ 0 ∷ 1 ∷ 0x33 ∷ [])
    ∷ (0x32 ∷ 7 ∷ 0 ∷ 0 ∷ 0 ∷ 9 ∷ 0 ∷ 12 ∷ 0 ∷ 6 ∷ 0 ∷ 1 ∷ 0x12 ∷ 8 ∷ 0x12 ∷ 0x83 ∷ 2 ∷ 1 ∷ 0 ∷ 0
        ∷ 0 ∷ 0 ∷ 0xff ∷ 9 ∷ 0 ∷ 2 ∷ 0x11 ∷ 0x22 ∷ [])
    ∷ []

block_replies_built : replies block_case (first_chunk ∷ last_chunk ∷ []) ≡ ok block_replies
unfolding reply
block_replies_built = refl

decode_conversation-replies_example :
    decode_conversation block_case block_replies ≡ ok (0x33 ∷ 0x11 ∷ 0x22 ∷ [])
decode_conversation-replies_example =
    decode_conversation-replies block_case first_chunk (last_chunk ∷ []) block_replies
      block_replies_built (omega arith) (omega arith)

block_payload : decode_conversation block_case block_replies ≡ ok (0x33 ∷ 0x11 ∷ 0x22 ∷ [])
unfolding decode_conversation fragments fragment valid_parameters valid_payload sections
block_payload = refl

decode_conversation-bounds_example :
    (length block_replies ≤ 2) × (length {A = ℕ} (0x33 ∷ 0x11 ∷ 0x22 ∷ []) ≤ 3)
decode_conversation-bounds_example =
    decode_conversation-bounds block_case block_replies (0x33 ∷ 0x11 ∷ 0x22 ∷ []) block_payload
