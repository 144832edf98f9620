-- ===== src/Load.antt =====
-- The gateway's load test, tests/load-test.js: one virtual user against an environment that answers
-- its requests, draws its random numbers and tells the time.
pub mod User
pub mod Scenario
pub mod Table
pub mod Shares
pub mod Calls
pub mod Payloads
pub mod Redraws
pub mod Runs
mod Tests
