-- ===== src/Lib.antt =====
-- A model of ss-logger-cpp: a logging library with its configuration and its thread pool.
--
-- The program. `Config` reads a JSON file through the static functions of `JSON` and keeps defaults
-- for what the file lacks. `Logger::Setup` takes the logging section of it, sets up a sink and starts
-- a thread that empties a `ThreadSafeQueue` of messages, to which `Logger::Log` adds from any
-- thread, and writes each message to the console, to a file and to the system log. `ThreadPool` runs
-- tasks on threads of its own, each with a `ThreadSafeQueue` of tasks, and steals across them.
--
-- The files.
--   Prelude    names of the libraries, Boolean tests, lists, integers.
--   Json       include/Parser/include/JSONParser.h, include/Parser/src/JSONParser.cpp. `Json.Stream`
--              is the `std::stringstream` as its reads show it, `Json.Value` the class `JSON` with
--              its five constructors and accessors, `Json.Parser` the functions `Parse`,
--              `ParseObject` (its loop is `object_loop`, a round of it `next_item` and then
--              `read_item`), `ParseString`, `ParseNumber`, `ParseBool`, `ParseNull`. `Json.Items`,
--              `Json.Scalars`, `Json.Flat`, `Json.Nesting`, `Json.Commas` describe classes of texts
--              and what is read from them, `Json.Nesting.Copies` and `Json.Nesting.Lookup` what nested
--              objects hold, `Json.Types` the values on any text.
--   Config     include/Parser/include/ServerConfig.h, include/Parser/src/ServerConfig.cpp.
--              `Config.Defs` has one function for each function of the class, `Config.Settings` the
--              settings of a document, described without the order of the reads,
--              `Config.Document` a file with all settings, `Config.Failures` a document whose
--              integers are of another kind.
--   Queue      include/Utils/include/ThreadSafeQueue.h. `Queue.Deque` has the member functions over a
--              deque that is a parameter, `Queue.Contents` the same on lists, for the other parts.
--   Logger     include/Logger/include/Logger.h, include/Logger/src/Logger.cpp. `Logger.State` has
--              `Setup`, `Reset` and `Log` on the static members and the sinks of the Boost core,
--              `Logger.Output` the bodies of `LogToConsole`, `LogToFile` and `Syslog`,
--              `Logger.Worker` the loop of `ProcessQueue` as steps between those of other threads,
--              and `Logger.Worker.Many` the loops of several calls of `Setup`: `Kept` what becomes of
--              a message, `Reordered` their order. `Logger.Pipeline` composes them with `Config`: from
--              the bytes of a configuration file to the texts on the three outputs, which `Logger.Texts`
--              writes out apart from the code.
--   Pool       include/Utils/include/ThreadPool.h. `Pool.Init` is the constructor, `Pool.State` the
--              steps of the threads (`ThreadLoop`, `ProcessTasks`, `StealTask`, `ExecuteTask`,
--              `SignalCompletion`) and of the callers of `EnqueueTask`, one access to shared state
--              each, `Pool.System` all of them beside one another and beside the destructor
--              (`WaitForTasks`, `StopAllThreads`); `Pool.Tasks` has the callables that `CreateTask`
--              and `CreateDetachedTask` make and `Enqueue` and `EnqueueDetach` hand on,
--              `Pool.Waiters` any number of calls of `WaitForTasks` on a running pool, with the wait
--              on the flag and `notify_one`. `Pool.Counters` counts tasks and signals,
--              `Pool.Identifiers` the priority queue, `Pool.Progress` is about the states in which a
--              pool stops and the ways to them, `Pool.Futures` joins these with the promises, also
--              up to the end of the destructor (`Pool.Futures.Delivered`), `Pool.Lifetime` begins with
--              the constructor, `Pool.Producer` is about one thread that makes all calls, and
--              `Pool.Alone` has calls and rounds with nothing in between.
--   Base64     include/Utils/include/Base64.h, include/Utils/src/Base64.cpp.
--   Example    src/main.cpp: `main`, its five threads and the loop of `ProcessQueue` beside them.
--   Tests      concrete inputs.
--
-- Results of calls. `Json.Result` has a case for a value, for each exception, for undefined
-- behaviour and for fuel that is used up. Fuel bounds the rounds of each loop of the parser and the
-- depth of the calls of `Parse` inside one another. `parse` takes one more than the length of the
-- text: a round that does not end the loop consumes a byte, and each inner text is shorter.
--
-- Parameters. `double` is any type, `std::stod` any function of a text, the conversion of a `double`
-- to `int` any partial function; `FCDeque` of libcds is a record of operations with the laws of a
-- deque. The filter and the formatter of a Boost sink are a threshold and a line of text, the text of
-- the time and of the thread's identifier is an argument.
-- The sink is seen without its delay, and the default sink of the Boost core, which takes the records
-- when no sink is registered, is left out. `isdigit` says no for a negative `char`, for which C++ leaves
-- it undefined. Of the encoder and the decoder of Boost.Beast only the documented sizes are assumed.
--
-- Abstractions. Memory is sequentially consistent: the steps of threads interleave, and an operation
-- on an atomic or on a queue is one step, but for `CopyFrontAndRotateToBack` in `EnqueueTask`, which
-- is two. The counters of the pool are natural numbers and its semaphores count without
-- a bound. The destructor takes its steps when no call of `EnqueueTask` is running; a state in which
-- nothing moves is one in which no step changes the place of a thread, of a call or of the destructor.
-- A step of the destructor that leaves the wait of `WaitForTasks` finds the flag set; the sleep and
-- `notify_one` are modelled in `Pool.Waiters` and not in `Pool.System`.
-- Tasks and messages are values. What a task does is apart from the steps of the threads: the way in
-- which a call of its function ends is an argument of the functions in `Pool.Tasks`.
--
-- Not modelled: what the function that `ThreadLoop` invokes first does before its call ends, calls
-- that begin while the destructor runs, the bodies of Boost's encoder and decoder,
-- include/Utils/include/Deque.h (a copy of a third-party deque that no file includes), and the test
-- suite.
mod Prelude
pub mod Json
pub mod Config
pub mod Queue
pub mod Logger
pub mod Pool
pub mod Base64
pub mod Example
mod Tests
