-- ===== src/Subscription.antt =====
-- protocol/core/transport/subscription.go: the servers of a subscription, which of them to dial
-- and over which transport. A weight that is not positive is 0 here, since the code treats all
-- such weights alike.
pub mod Transports
pub mod Stats
pub mod Ranking
pub mod Selection
