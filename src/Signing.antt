-- ===== src/Signing.antt =====
-- Signing of evidence with a local key: lib/signature-digest.js, lib/signing-contract.js and
-- lib/local-ecdsa-provider.js.
pub mod Digest
pub mod Contract
pub mod Local
pub mod KeyPair
pub mod Provider
pub mod Providers
