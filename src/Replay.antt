-- ===== src/Replay.antt =====
-- protocol/core/transport/replay.go: the rotating Bloom filter that refuses replayed handshakes.
pub mod Bits
pub mod Hash
pub mod Bloom
pub mod Filter
