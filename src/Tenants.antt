-- ===== src/Tenants.antt =====
-- What requests can do to the table of blobs, whoever sends them: internal/usecase/storage over
-- internal/repo/persistent/postgres.
pub mod Requests
pub mod BlobRows
pub mod Isolation
pub mod ObjectKeys
