-- ===== src/Peer.antt =====
-- The peers that the integration programs serve to a client: the PDUs that they build and check.
pub mod Reply
