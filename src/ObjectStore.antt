-- ===== src/ObjectStore.antt =====
-- lib/json-object-store.js and lib/s3-json-object-store.js: JSON objects under relative keys, in
-- files or in a bucket.
pub mod Key
pub mod Local
pub mod Bucket
pub mod Files
pub mod Worm
