-- ===== src/Redis.antt =====
-- The Redis commands that the program sends, as interfaces over the server's state `R`. Redis is
-- not part of this repository: the laws are its documented behaviour, and every theorem that
-- rests on them takes such an interface. Times are in nanoseconds.
pub mod Sets
pub mod Strings
pub mod Lists
pub mod MemoryLists
pub mod MemorySets
pub mod MemoryStrings
