-- ===== src/Redstone.antt =====
-- protocol/core/transport/redstone.go: the disguise of a connection as a Minecraft session.
pub mod Varint
pub mod Packet
pub mod Conn
pub mod Handshake
pub mod Session
