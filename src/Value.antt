-- ===== src/Value.antt =====
-- integration/value_conformance.py: the oracle for integers, strings and clocks.
pub mod Octets
pub mod Integer
pub mod Clock
