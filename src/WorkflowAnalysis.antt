-- ===== src/WorkflowAnalysis.antt =====
-- scripts/sanity/secure-ownable/workflow/workflow-analysis-tests.js: the class
-- `WorkflowAnalysisTests`. What is printed is left out.
pub mod Scores
pub mod Consistency
pub mod Suite
mod Tests
