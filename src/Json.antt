-- ===== src/Json.antt =====
-- include/Parser/include/JSONParser.h and include/Parser/src/JSONParser.cpp.
--
-- `Stream` is the `std::stringstream` that the parser reads, `Value` the class `JSON`, `Parser`
-- the static member functions. The type of `double` and the function `std::stod` are parameters.
pub mod Result
pub mod Stream
pub mod Value
pub mod Parser
pub mod Scan
pub mod Strings
pub mod Types
pub mod Fuel
pub mod Items
pub mod Scalars
pub mod Flat
pub mod Nesting
pub mod Commas
