-- ===== src/Conversation.antt =====
-- integration/conversation_conformance.py: the oracle for primitive conversation histories.
pub mod Types
pub mod Wire
pub mod Input
pub mod History
pub mod Trace
pub use Types.{MemoryRange, Location}
unfoldable pub use Wire.{
  address, addresses, packet, payload_from, payload, write_data, valid_range, valid_ranges, request,
}
