-- ===== src/Claims/Json.antt =====
-- The portable JSON form of a claim, packages/sdk/src/json.ts.
pub mod Hex
pub mod Form
pub mod Back
