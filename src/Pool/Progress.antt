-- ===== src/Pool/Progress.antt =====
-- include/Utils/include/ThreadPool.h: whether the threads can all wait while there is work to do, or
-- while `WaitForTasks` waits, and how a pool comes to rest and the destructor to its end.
pub mod Attended
pub mod Signalled
pub mod Stuck
pub mod Closing
pub mod Busy
pub mod Onward
pub mod Useful
pub mod Rest
pub mod Leaving
pub mod Turns
pub mod Ended
