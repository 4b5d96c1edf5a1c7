-- ===== src/Logger.antt =====
-- include/Logger/include/Logger.h and include/Logger/src/Logger.cpp.
--
-- `Message` has the enumerations and the text of a message, `State` the static members of `Logger`
-- and the functions that set them, `Output` what a message writes, `Filter` the sink
-- that `Setup` adds, `Worker` the loop that empties the queue beside the threads that fill it, `Texts`
-- the texts on the outputs apart from the code, and `Pipeline` the way from a configuration file to the outputs.
pub mod Message
pub mod State
pub mod Output
pub mod Filter
pub mod Worker
pub mod Texts
pub mod Pipeline
