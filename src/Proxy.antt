-- ===== src/Proxy.antt =====
-- protocol/core/transport/proxy.go: the local SOCKS5 proxy of the client.
pub mod Datagram
pub mod Negotiation
