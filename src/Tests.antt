-- ===== src/Tests.antt =====
-- A run of the state store on concrete requests, and the theorems at its states.
mod Data
mod Scenario
mod Attempts
mod Terminals
mod Resets
mod Passes
mod Slots
mod Sessions
mod Pty
mod Tokens
mod Rooms
