-- ===== src/Tests.antt =====
-- Concrete inputs: the theorems applied to them, with a sample `std::stod`.
mod Pool
mod Progress
mod Alone
mod Example
mod Waiters
mod Decimal
mod Parser
mod Documents
mod Sections
mod Settings
mod Failures
mod Threads
mod Pipeline
mod Futures
