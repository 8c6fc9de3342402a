-- ===== src/Session.antt =====
-- integration/session_conformance.py: the oracle for active-request histories.
pub mod Config
pub mod Response
pub mod Machine
pub mod Trace
