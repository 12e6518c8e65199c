-- ===== src/Funding.antt =====
-- The funding of a payroll batch, src/lib/funding.
pub mod Eligibility
pub mod Verdict
pub mod Assessment
mod Tests
