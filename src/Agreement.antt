-- ===== src/Agreement.antt =====
-- Where two oracles read or write the same wire format: what one encodes the other accepts.
pub mod Positions
pub mod Frame
pub mod Sections
pub mod Request
pub mod Response
pub mod Reply
pub mod Verdicts
pub mod Fragments
