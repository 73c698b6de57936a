-- ===== src/Academics.antt =====
-- The academic calendar of a school (src/academics): sessions and their terms.
pub mod Periods
pub mod Sessions
pub mod Terms
pub mod Counting
pub mod Marking
pub mod Creating
pub mod Inserting
pub mod Placing
pub mod Keeping
pub mod Histories
pub mod Drift
pub mod Apart
pub mod Scheduling
pub mod Days
pub mod Timetables
mod Tests
