-- ===== src/Rooms.antt =====
-- services/control-plane/failroom_control_plane: the services that compose the store's operations.
pub mod Acts
pub mod Codes
pub mod Steady
pub mod Passes
pub mod Evolving
pub mod Provisioning
pub mod Lifecycle
pub mod Keys
pub mod Provision
pub mod Orchestrator
pub mod Recovery
pub mod Maintenance
pub mod Entry
pub mod Verifying
pub mod Recovered
pub mod Serving
