-- ===== src/Mesh.antt =====
-- kanbrick-mesh: the host of the guests, its scheduler and its event bus.
pub mod Abi
pub mod Error
pub mod Task
pub mod Scheduler
pub mod EventBus
