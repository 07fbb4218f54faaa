-- ===== src/Lib.antt =====
-- redis-like: the key-value server under server/src and its client under client, in a shallow
-- embedding.
--
-- The parts and how they interact. A connection reads a request, which the parser
-- (protocol/parser.cpp) splits into strings; the dispatcher (command/command_dispatcher.cpp) finds
-- the command of the first string and calls its handler; the handlers work on one global hash table,
-- HMap_string, whose nodes are hooks embedded in strings (data_structures/string.cpp) and in sorted
-- sets (data_structures/zset.cpp). A sorted set has a hash table of its own (hashTable.cpp) and an
-- AVL tree (avl.cpp), both over hooks in its entries. The handler's response is serialized
-- (protocol/serializer.cpp) and written back.
--
-- The files. Paths of the program are below server/src.
--   Prelude: what all share. Prelude/Effects is what a C++ call does: it returns, throws, or its
--     behaviour is undefined. Prelude/Text has the bytes of the literals, in UTF-8.
--   HashTable: data_structures/hashTable.h and hashTable.cpp. HashTable/Tab is HTab, an array of
--     chains: HNode, HTab, h_insert, h_lookup, h_detach, h_clean_up, get_pos. HashTable/Map is HMap,
--     with the step of the rehashing in every operation: hm_help_rehashing, hm_trigger_rehashing,
--     hm_lookup, hm_insert, hm_delete, hm_size, hm_clean_up. Their children hold the proofs.
--   Avl: data_structures/avl.h and avl.cpp, with a function for each function of AVLTree but
--     avl_offset and postorder. A pointer to a node is the subtree with the frames above it.
--   Protocol: Protocol/Parser is protocol/parser.cpp, Protocol/Frames the format that parser.h
--     draws, Protocol/Response and Protocol/Serializer the responses and
--     serialize of protocol/serializer.h and serializer.cpp, Protocol/Arrays its other functions.
--   Store: Store/Objects has the objects and the memory, Store/Strings string.cpp (get, set, del),
--     Store/Members and Store/Zsets zset.cpp (ZsetEntry and Zset). Store/Contents says what a
--     database holds, with tables and addresses forgotten; the children of Store/Strings show that
--     get, set and del are the operations of a map from keys to values. The children of
--     Store/Members show that a sorted set is a list of entries in order, its ranking
--     (Store/Members/Ranking), which every operation reads or changes: Store/Members/Ordered has the
--     invariant that the hash table and the tree hold the same entries.
--   Dispatch: command/commands.h and command_dispatcher.cpp: the registry, the handlers,
--     execute_command. Prelude/Numbers is std::stoi and std::stoll.
--   Network: Network/Connection is try_one_request of network/connection.cpp, with the buffers of
--     utils/buffer/bufferPool.cpp and what the pointer into the buffer reads after the erasure;
--     Network/Pipeline shows which request that is. Network/Events is handle_read and
--     handle_write, over what the system calls return, with the proofs in Network/Serving and
--     Network/Writing.
--     Network/Server is a round of run in network/server.cpp, over what poll and accept return;
--     Network/Pool and Network/Rounds keep each connection at its descriptor.
--   Client: src/client, from the repository's root client. Client/Deserializer is deserializer.cpp,
--     Client/Printer response_printer.h and Client/Program main.cpp: send_req, read_res and the
--     lines of the user. Client/RoundTrip reads back what the server serializes, Client/Ends shows
--     that the parser ends, and Client/Exchange puts a client and a connection together.
--   Logger: utils/logger/logger.h and logger.cpp: init, shutdown, log, ensureFileOpen. Logger/Entries
--     is what a call writes, Logger/Days what a day adds to the files.
--   Tests: concrete inputs.
--
-- Conventions. A hook's object is found by its address, as container_of does; the memory is a
-- function from addresses, `none` where nothing lives. Following a null or dangling pointer, an index
-- out of range, and a hook read as the wrong type are `undefined`. Words of 32 bits wrap with
-- `% 2 ^ 32`; the theorems state the bounds under which they do not. Scores are a parameter with the
-- operations that the program uses on `double`, and the laws of its
-- comparisons, in Store/Members/Order, are a hypothesis of the theorems on sorted sets. `char` is signed, as on x86. The calls of the
-- logger are left out of the other parts, whose state they do not change.
--
-- Fuel. The loop of hm_help_rehashing runs on 128 + the number of old slots + 1 rounds; each round
-- moves a node, of which it moves 128 at most, or passes a slot, so that this is enough on a valid
-- map, which its theorem includes. The loop of handle_read runs on the bytes in the buffer and one
-- more, since every request that it serves takes four bytes at least. The recursion of the client's parser
-- runs on one more than the bytes of its buffer, since each response takes a byte at least. All other
-- loops are structural.
--
-- Not modelled: allocation failure and the exceptions of it; the destructors; avl_offset, which
-- nothing calls; the constructor of Server, which opens the listening socket; the sockets and the
-- command line of the client; writes to a log that fail, and fd_set_nonblock of utils/utils.cpp.
pub mod Prelude
pub mod HashTable
pub mod Avl
pub mod Protocol
pub mod Store
pub mod Dispatch
pub mod Network
pub mod Client
pub mod Logger
pub mod Tests
