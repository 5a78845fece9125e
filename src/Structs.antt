-- ===== src/Structs.antt =====
-- The data that the programs exchange: libraries/nullspace-structs/src, one child for each file of
-- it that is modelled. What the source only compares, hashes or hands to a library stands as a
-- number (a hash, a key, a signature: a byte string of fixed length), a text or a list of bytes.
pub mod Ids
pub mod Certificate
pub mod Directory
pub mod Files
pub mod Server
pub use Ids.*
pub use Certificate.*
pub use Directory.*
pub use Files.*
pub use Server.*
