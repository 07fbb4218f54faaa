-- ===== src/Tests.antt =====
-- The theorems at concrete inputs, for each part of the server.
mod Maps
mod Trees
mod Requests
mod Databases
mod Sets
mod Dispatches
mod Connections
mod Clients
mod Rounds
mod Logs
mod Arrays
