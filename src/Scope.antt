-- ===== src/Scope.antt =====
-- What a caller may see: kanbrick-auth/src/scope.rs and kanbrick-discovery/src/scope.rs.
mod Tests
pub mod Clearance
pub mod Rows
pub mod Project
pub mod Answers
