-- ===== src/Rwa20.antt =====
-- scripts/sanity/simple-rwa20/simple-rwa20-eip712-signer.js: the class `SimpleRWA20EIP712Signer`,
-- which extends `EIP712Signer`. What is printed is left out.
pub mod Signer
mod Tests
