-- ===== src/Std.antt =====
-- The parts of the C++ standard library that the program uses.
pub mod Result
pub mod Number
pub mod Stream
pub mod Sort
pub mod Double
