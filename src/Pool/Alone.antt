-- ===== src/Pool/Alone.antt =====
-- include/Utils/include/ThreadPool.h: `EnqueueTask` and a round of `ThreadLoop` when no other thread
-- takes a step in between.
pub mod Calls
pub mod Overrun
pub mod Rounds
pub mod Balance
pub mod Thread
pub mod Order
pub mod Lost
