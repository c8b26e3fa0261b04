-- ===== src/Proof.antt =====
-- internal/proof: the engine that measures quality in the background, of which one replica is leader.
pub mod Leader
