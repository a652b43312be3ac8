-- ===== src/ConfReader.antt =====
-- The reader of configuration files: gps/utils/loc_cfg.cpp.
pub mod Trim
pub mod Entry
pub mod Last
mod Tests
