-- ===== src/Workflow.antt =====
-- scripts/sanity/secure-ownable/workflow/base-workflow-test.js: the class `BaseWorkflowTest`, with
-- the description of the workflows that its tests analyse. What is printed is left out.
pub mod Types
pub mod Ownership
pub mod Broadcaster
pub mod Single
pub mod Catalog
pub mod Analysis
pub mod Actions
pub mod Cache
pub mod Execution
mod Tests
