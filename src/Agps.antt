-- ===== src/Agps.antt =====
-- The assisted-GPS resource state machine of gps/libloc_api_50001/loc_eng_agps.{h,cpp}.
pub mod Types
pub mod Subscriber
pub mod Notify
pub mod Machine
pub mod States
pub mod Facts
pub mod Trace
mod Tests
