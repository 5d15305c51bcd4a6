-- ===== src/OwnableSuites/Counted.antt =====
-- No step of the suites loses the count of the tests, and the searches, validations, requests and
-- waits among them keep the wallets of the roles.
pub mod Base
pub mod Ground
pub mod Requesting
pub mod Stepping
pub mod Broadcasting
pub mod Updating
pub mod Signing
pub mod Running
