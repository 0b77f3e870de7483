-- ===== src/Firewall.antt =====
-- protocol/core/transport/firewall.go: what a user may connect to, how often and how much.
pub mod Ranges
pub mod Connections
pub mod Bandwidth
