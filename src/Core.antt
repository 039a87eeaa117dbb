-- ===== src/Core.antt =====
-- kanbrick-core: the vocabulary of every layer.
mod Tests
pub mod Clearance
pub mod Context
pub mod Error
