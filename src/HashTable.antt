-- ===== src/HashTable.antt =====
-- server/src/data_structures/hashTable.h and hashTable.cpp. `Tab` has the fixed table `HTab`, `Map`
-- the table `HMap` that rehashes step by step; the proofs about each stand below it.
pub mod Tab
pub mod Map
