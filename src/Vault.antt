-- ===== src/Vault.antt =====
-- scripts/sanity/simple-vault/base-test.js: the class `BaseSimpleVaultTest`. What is printed is left
-- out.
pub mod Session
pub mod Roles
pub mod Timelock
mod Tests
