-- ===== src/Auth.antt =====
-- kanbrick-auth: the gate on the statements of guests, and the guarded store.
pub mod ReadOnly
pub mod Query
pub mod Guarded
pub mod ApiKey
pub mod Token
pub mod Login
pub mod Requests
mod Samples
