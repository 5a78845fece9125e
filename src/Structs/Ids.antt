-- ===== src/Structs/Ids.antt =====
-- Names, keys, times and blobs: nullspace-crypt's newtypes, timestamp.rs, username.rs, lib.rs.
use xirtam_core.Prelude.{ℕ, String, List}

abbrev pub Bytes : Type 0
Bytes = List ℕ

-- [u8; 32], read as one number
abbrev pub Hash : Type 0
Hash = ℕ

abbrev pub SigningPublic : Type 0
SigningPublic = ℕ

abbrev pub SigningSecret : Type 0
SigningSecret = ℕ

-- [u8; 64]
abbrev pub Signature : Type 0
Signature = ℕ

abbrev pub DhPublic : Type 0
DhPublic = ℕ

-- u64, in seconds
abbrev pub Timestamp : Type 0
Timestamp = ℕ

-- u64, in nanoseconds
abbrev pub NanoTimestamp : Type 0
NanoTimestamp = ℕ

abbrev pub UserName : Type 0
UserName = String

abbrev pub ServerName : Type 0
ServerName = String

-- [u8; 20]
abbrev pub AuthToken : Type 0
AuthToken = ℕ

abbrev pub GroupId : Type 0
GroupId = Hash

abbrev pub MailboxId : Type 0
MailboxId = Hash

-- [0u8; 32] and [0u8; 64]
abbrev pub zero_hash : Hash
zero_hash = 0

abbrev pub blank_signature : Signature
blank_signature = 0

-- AuthToken::anonymous
abbrev pub anonymous : AuthToken
anonymous = 0

pub record Blob : Type 0 where
  pub kind : String
  pub inner : Bytes

-- UserDescriptor
pub record UserDescriptor : Type 0 where
  pub server_name : ServerName
  pub root_cert_hash : Hash
