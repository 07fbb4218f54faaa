-- ===== src/Dispatch.antt =====
-- server/src/command/command_dispatcher.cpp and commands.h: the commands, their handlers and how a
-- request is dispatched to them.
pub mod Handlers
pub mod Execute
pub mod Requests
pub mod Refused
