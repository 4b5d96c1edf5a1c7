-- ===== src/Pool.antt =====
-- include/Utils/include/ThreadPool.h: the class `ThreadPool`.
--
-- `Init` is the loop that starts the threads. `State` has the shared members and, as one function
-- each, the steps of a pool thread (`ThreadLoop`, `ProcessTasks`, `StealTask`, `ExecuteTask`,
-- `SignalCompletion`) and of a caller of `EnqueueTask`; a step is one access to shared state.
-- `System` has these beside one another, with the destructor. `Tasks` has the callables that the
-- pool runs, `Waiters` the calls of `WaitForTasks`, `Counters` the two counters, `Identifiers` the
-- priority queue, `Progress` the states in which nothing moves and the ways to them, `Futures` the
-- promises, `Alone` calls and rounds with nothing in between, `Lifetime` a pool from its constructor
-- on, and `Producer` one thread that makes all calls.
pub mod Family
pub mod Init
pub mod State
pub mod System
pub mod Tasks
pub mod Identifiers
pub mod Counters
pub mod Progress
pub mod Waiters
pub mod Futures
pub mod Alone
pub mod Lifetime
pub mod Producer
