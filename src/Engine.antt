-- ===== src/Engine.antt =====
-- The location engine of gps/libloc_api_50001/loc_eng.cpp: its thread's messages and its interface.
pub mod Types
pub mod Session
pub mod Server
pub mod Connections
pub mod Reports
pub mod Handler
pub mod Api
pub mod Kept
pub mod Saved
pub mod Machines
pub mod Driven
pub mod Lives
pub mod Muted
pub mod Told
pub mod Override
mod Tests
