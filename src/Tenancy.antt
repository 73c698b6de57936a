-- ===== src/Tenancy.antt =====
-- Multi-tenancy (src/database): the guard between the services and the database client.
pub mod Guard
mod Tests
