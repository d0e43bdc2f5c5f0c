-- ===== src/Sandbox.antt =====
-- services/sandbox-engine/failroom_sandbox: the terminal of a sandbox.
pub mod Limits
pub mod Pty
pub mod Sizes
pub mod Scenario
pub mod Declared
pub mod Device
pub mod Budget
pub mod Closing
pub mod Writing
