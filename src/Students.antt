-- ===== src/Students.antt =====
-- Students (src/students): the file of an import.
pub mod Csv
mod Tests
