-- ===== src/Backend.antt =====
-- services/carpayin-backend
pub mod Models
pub mod Accounts
pub mod Env
pub mod Transactions
pub mod Payment
pub mod Outbox
pub mod Fees
pub mod Retries
pub mod Entry
pub mod Vehicles
pub mod Plates
pub mod Cards
pub mod Tokens
pub mod SignIn
pub mod Refresh
pub mod Confirm
pub mod PreNotifications
pub mod Signature
pub mod System
mod Sample
mod Examples
mod ParkingExamples
mod CardExamples
mod AccountExamples
