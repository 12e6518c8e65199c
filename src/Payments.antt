-- ===== src/Payments.antt =====
-- The payment domain, src/lib/payments: the state machine, its table, and what they guarantee.
pub mod Types
pub mod Transitions
pub mod Check
pub mod Descriptors
pub mod Admission
pub mod Authority
pub mod Lifecycle
pub mod Rollup
pub mod Standing
pub mod Store
pub mod Service
pub mod Transfer
pub mod History
mod Arrival
pub mod Actions
pub mod Requests
pub mod Decisions
pub mod Submission
pub mod Outcomes
mod Tests
mod ActionTests
