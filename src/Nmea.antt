-- ===== src/Nmea.antt =====
-- NMEA sentences: gps/libloc_api_50001/loc_eng_nmea.cpp.
pub mod Types
pub mod Print
pub mod Position
pub mod Satellites
pub mod Parity
pub mod Received
pub mod Plain
pub mod Sent
pub mod Reported
pub mod Groups
pub mod Used
mod Tests
