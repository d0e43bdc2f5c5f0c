-- ===== src/StateStore/Resets.antt =====
-- backend.py and control_plane.py: begin_reset, accept, publish_reset_ready, and the ends of an
-- attempt.
pub mod Gates
pub mod Ends
