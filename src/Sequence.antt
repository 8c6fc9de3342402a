-- ===== src/Sequence.antt =====
-- integration/sequence_conformance.py: the oracle for multi-item and USERDATA conversations.
pub mod Sections
pub mod Request
pub mod Multi
pub mod Userdata
