-- ===== src/Reconciliation.antt =====
-- Payments against the chain, src/lib/payments/reconcile.ts.
pub mod Findings
pub mod Views
pub mod Reconcile
pub mod Discrepancies
pub mod Evidence
pub mod Moves
pub mod Failed
pub mod Corrections
mod Tests
