-- ===== src/Server.antt =====
-- binaries/nullspace-server/src: the mailbox server.
pub mod PubSub
pub mod Database
pub mod Mailbox
pub mod Device
pub mod Profile
pub mod Fragments
