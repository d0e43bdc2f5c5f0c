-- ===== src/StateStore.antt =====
-- packages/state-store/failroom_state: durable attempts, sandbox resources, capability uses,
-- attachment leases and lifecycle operations, behind a backend and a control-plane API.
pub mod Models
pub mod Rows
pub mod Tx
pub mod Libs
pub mod Sql
pub mod Common
pub mod Backend
pub mod ControlPlane
pub mod Worker
pub mod Evolves
pub mod Capabilities
pub mod Resets
