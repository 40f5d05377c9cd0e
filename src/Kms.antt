-- ===== src/Kms.antt =====
-- lib/aws-kms-provider.js: signatures between AWS KMS, which speaks DER, and the rest of the
-- program, which stores 64 raw bytes.
pub mod Der
pub mod Encode
pub mod RoundTrip
pub mod Bounds
pub mod Client
pub mod Provider
pub mod Evidence
pub mod Guarded
pub mod Commands
pub mod Signs
pub mod SignVerify
pub mod EvidenceVerified
