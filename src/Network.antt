-- ===== src/Network.antt =====
-- server/src/network: a connection of the server.
pub mod Connection
pub mod Pipeline
pub mod Events
pub mod Serving
pub mod Writing
pub mod Server
pub mod Pool
pub mod Rounds
