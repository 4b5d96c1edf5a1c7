-- ===== src/Pool/Counters.antt =====
-- include/Utils/include/ThreadPool.h: the counters `m_unassigned_tasks` and `m_in_flight_tasks`, and
-- where each task is.
pub mod Weights
pub mod Worker
pub mod Caller
pub mod Reached
pub mod Bounds
