-- ===== src/Results.antt =====
-- Examination results (src/results): grading, ranking, computation and the result sheet.
pub mod Grading
pub mod Ranking
pub mod Compute
pub mod Access
pub mod School
pub mod Snapshot
pub mod Sheets
mod Tests
