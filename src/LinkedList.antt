-- ===== src/LinkedList.antt =====
-- The doubly linked list of gps/utils/linked_list.{h,c}.
pub mod Abstract
pub mod Lookup
pub mod Store
pub mod Code
pub mod Chain
pub mod Returns
pub mod Add
pub mod Remove
pub mod TakeOut
pub mod Search
pub mod Flush
pub mod Errors
pub mod Tail
mod Tests
