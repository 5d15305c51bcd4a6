-- ===== src/Runner.antt =====
-- The three runners of the sanity tests: scripts/sanity/secure-ownable/run-tests.js, which reads
-- what each suite returns, and simple-vault/run-tests.js with simple-rwa20/run-tests.js, which read
-- only whether a suite throws. What is printed is left out.
pub mod Results
pub mod Suites
pub mod Standalone
mod Tests
