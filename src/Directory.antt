-- ===== src/Directory.antt =====
-- The directory: update histories (nullspace-structs/src/directory.rs), the server that collects
-- and commits them (nullspace-directory/src), and the client that checks what it is served
-- (nullspace-dirclient/src).
pub mod History
pub mod Headers
pub mod Merkle
pub mod Pow
pub mod State
pub mod Serve
pub mod Mirror
pub mod Client
