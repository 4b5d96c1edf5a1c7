-- ===== src/Config.antt =====
-- include/Parser/include/ServerConfig.h and include/Parser/src/ServerConfig.cpp: the class
-- `Config`. What it prints is a list of lines. `to_int` is the conversion of a `double` to `int`,
-- `none` where the value does not fit and the conversion is undefined behaviour.
pub mod Defs
pub mod Settings
pub mod Document
pub mod Failures
