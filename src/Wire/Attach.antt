-- ===== src/Wire/Attach.antt =====
-- crates/wire-types/src/attach.rs: the payloads of an attachment.
pub mod Chunk
pub mod Head
pub mod Decode
pub mod Tail
pub mod Chunked
pub mod Inline
pub mod RoundTrip
