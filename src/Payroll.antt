-- ===== src/Payroll.antt =====
-- The import of payroll files, src/lib/payroll/csv.ts.
pub mod Reader
pub mod Fields
pub mod Checks
pub mod Import
pub mod Batches
pub mod Writing
pub mod Create
mod Drafts
mod Once
mod BatchTests
mod Printer
mod Sound
mod Payable
mod Rows
mod Imported
mod Accepted
mod Tests
