-- ===== src/Pms.antt =====
-- services/pms: the parking management system.
pub mod Models
pub mod Sessions
pub mod Payments
pub mod Stores
pub mod Fee
pub mod Entry
pub mod Exit
pub mod Paid
pub mod System
pub mod Flow
mod Examples
