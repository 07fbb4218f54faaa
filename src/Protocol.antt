-- ===== src/Protocol.antt =====
-- server/src/protocol: the request parser and the response serializer, over byte strings.
pub mod Words
pub mod Parser
pub mod Frames
pub mod Sound
pub mod Response
pub mod Serializer
pub mod Arrays
