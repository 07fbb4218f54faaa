-- ===== src/Store.antt =====
-- server/src/data_structures/string.{h,cpp} and zset.{h,cpp}: the objects of the database, by their
-- addresses, the hash table of the database and those of the sorted sets.
pub mod Objects
pub mod Contents
pub mod Strings
pub mod Members
pub mod Zsets
