-- ===== src/Auth.antt =====
-- Sign-in and sessions (src/auth): users, memberships and tokens, whatever school they belong to.
pub mod Store
pub mod Tokens
pub mod Passwords
pub mod Access
pub mod Login
pub mod Sessions
pub mod Strategy
pub mod Permissions
pub mod Admission
pub mod Writes
pub mod Histories
pub mod Samples
mod Tests
