-- ===== src/Wire.antt =====
-- What is on the wire: protocol/core/transport/framing.go, the readers of addresses of relay.go
-- and the parse of connect payloads of server.go.
pub mod Net
pub mod Address
pub mod Frames
pub mod Stream
pub mod Connect
pub mod Writer
pub mod Reader
pub mod Channel
