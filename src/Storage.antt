-- ===== src/Storage.antt =====
-- The secret storage of src/storage: the envelope of a secret, the places it is kept in, and the providers.
pub mod Libraries
pub mod Base64
pub mod Payload
pub mod Envelope
pub mod Backend
pub mod Provider
pub mod Memory
