-- ===== src/BasicString.antt =====
-- src/panda/basic_string.h: the copy-on-write string.
pub mod Memory
pub mod Storage
pub mod Invariant
pub mod New
pub mod Reserved
pub mod ReserveSave
pub mod Ops
pub mod Became
pub mod Append
pub mod Middle
pub mod Gap
pub mod Erase
pub mod ReserveMiddle
pub mod Insert
pub mod Life
pub mod CStr
pub mod Assign
pub mod Search
mod Examples
