-- ===== src/StateStore/Worker.antt =====
-- docker_worker.py: one pass of cleanup over many transactions. Between two of them other
-- processes may change the tables, and a transaction may not get the lock of the database.
pub mod World
pub mod Pass
pub mod Limits
pub mod Counts
