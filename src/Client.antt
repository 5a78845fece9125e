-- ===== src/Client.antt =====
-- libraries/nullspace-client/src: the parts of the client that are modelled, one child each.
pub mod Bundle
pub mod Roster
pub mod Retry
pub mod LongPoll
pub mod Receive
pub mod Recipients
