-- ===== src/Core.antt =====
-- The crypto core, crates/avault-core/src/lib.rs: envelopes (`seal`, `open`, `open_with_dek`), their
-- associated data, and master-key exports. The ciphers, scrypt, base64 and serde_json are other
-- crates: `Crypto` holds them as functions, and `CryptoLaws` what the code relies on. Random bytes
-- are arguments. Text is its UTF-8 bytes; `[u8; 32]` and `[u8; 12]` are byte strings whose length
-- the callers fix.
pub mod Crypto
pub mod Envelope
pub mod Open
pub mod Protected
pub mod Scrypt
pub mod Export
pub mod Signing
