-- ===== src/Terminal.antt =====
-- services/control-plane, terminal.py: attachments of a terminal, and the slots that bound them.
pub mod Slots
pub mod Counting
pub mod Attach
pub mod Attached
