-- ===== src/SecureOwnable.antt =====
-- scripts/sanity/secure-ownable/base-test.js: the class `BaseSecureOwnableTest`, which finds the
-- wallets of the roles of a deployed contract, clears what is pending, waits for time locks and
-- keeps the counts of a test run. What `console.log` prints is left out.
pub mod Names
pub mod Session
pub mod Roles
pub mod Pending
pub mod Permissions
pub mod Timelock
pub mod Run
mod Tests
