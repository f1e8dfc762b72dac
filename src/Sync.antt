-- ===== src/Sync.antt =====
-- Synchronisation of the message ledgers of two peers.
pub mod View
pub mod Delivery
pub mod Outbox
pub mod Drain
pub mod Resync
pub mod Ingress
pub mod OutSeq
mod Tests
