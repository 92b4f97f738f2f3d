-- ===== src/Lifecycle.antt =====
-- What the methods that lease, start, finish and reap jobs achieve, call by call.
pub mod Outcomes
pub mod Receiving
pub mod Fewness
pub mod Starting
pub mod Finishing
pub mod Ends
pub mod Claiming
pub mod Leasing
pub mod Renewing
pub mod Reaping
