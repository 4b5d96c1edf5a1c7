-- ===== src/Queue.antt =====
-- include/Utils/include/ThreadSafeQueue.h: the class `ThreadSafeQueue`, over the deque of libcds
-- that it wraps, and the list of its values that its clients see.
pub mod Deque
pub mod Contents
pub mod Refines
