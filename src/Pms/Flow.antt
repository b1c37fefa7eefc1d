-- ===== src/Pms/Flow.antt =====
-- A vehicle's way through services/pms, request by request: what an entry, a payment and an exit
-- leave behind in the tables and in Redis.
pub mod EntryRun
pub mod PaymentRun
pub mod ExitRun
pub mod Visit
