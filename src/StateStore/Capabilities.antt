-- ===== src/StateStore/Capabilities.antt =====
-- backend.py, consume, and control_plane.py, grant_attachment_lease: terminal capabilities.
pub mod Accepted
pub mod Once
pub mod Checked
pub mod Leases
