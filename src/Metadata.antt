-- ===== src/Metadata.antt =====
-- The signed sidecar metadata of an evidence object: lib/metadata.js, lib/metadata-signing.js.
pub mod Schema
pub mod Validate
pub mod Sound
pub mod Signing
