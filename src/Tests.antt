-- ===== src/Tests.antt =====
-- Concrete inputs: a toy environment, and the theorems applied to it.
mod Toy
mod Codec
mod Tree
mod Service
mod Reader
mod LongPoll
mod Ciphers
mod E2ee
mod Receive
mod Certificate
mod Directory
mod Roster
mod Mailbox
mod PubSub
mod Headers
mod Device
mod Files
mod Retry
