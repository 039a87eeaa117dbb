-- ===== src/Egress.antt =====
-- kanbrick-egress/src/lib.rs: the gate at the boundary where data leaves for a provider.
mod Tests
pub mod Policy
pub mod Host
pub mod Gate
pub mod Transport
pub mod Narrowing
pub mod Audit
