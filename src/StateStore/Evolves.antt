-- ===== src/StateStore/Evolves.antt =====
-- How the requests to both stores may change the tables (backend.py, control_plane.py, schema.py).
pub mod Relation
pub mod Sound
pub mod Rewritten
pub mod Steps
pub mod Statements
pub mod Writes
pub mod Shared
pub mod Attempts
pub mod Sandboxes
pub mod History
pub mod Reads
pub mod Log
pub mod Authority
pub mod Repeated
pub mod Conflicts
