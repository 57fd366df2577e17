-- ===== src/Tests.antt =====
-- Runs of the theorems and the definitions on small inputs.
pub mod Data
pub mod Values
mod Headers
mod Checks
mod Store
mod Reports
mod Limits
mod Copies
mod Answers
mod Methods
mod Votes
mod Pool
mod Serving
mod Claimed
