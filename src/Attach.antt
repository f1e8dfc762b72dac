-- ===== src/Attach.antt =====
-- The attachment transfers: crates/core/src/attach/mod.rs with the tables attachments and attachment_chunks.
pub mod Store
pub mod Plan
pub mod Transfer
pub mod Delivery
mod Tests
