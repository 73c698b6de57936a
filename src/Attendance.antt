-- ===== src/Attendance.antt =====
-- Registers of attendance (src/attendance).
pub mod Register
pub mod Saving
mod Tests
