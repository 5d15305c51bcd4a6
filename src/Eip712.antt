-- ===== src/Eip712.antt =====
-- scripts/sanity/utils/eip712-signing.js: the class `EIP712Signer`.
-- What `console.log` prints is left out, and so is a `catch` that only logs and throws again.
pub mod Value
pub mod Library
pub mod Domain
pub mod Signer
pub mod Signing
mod Tests
