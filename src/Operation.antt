-- ===== src/Operation.antt =====
-- integration/operation_conformance.py: the oracle for string reads, single replies and progress.
pub mod Userdata
pub mod Progress
