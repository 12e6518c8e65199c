-- ===== src/Indexer.antt =====
-- The projection of the chain's events on the database, src/lib/indexer.
pub mod Events
pub mod World
pub mod Added
pub mod Approvals
pub mod Settled
pub mod Apply
pub mod Batch
pub mod Payload
pub mod Replay
pub mod Run
mod Cursor
mod Backlog
mod Held
mod Effects
mod Branches
mod Payees
mod Steps
mod Sequence
mod Order
mod Markers
mod Resume
mod Sample
mod Tests
