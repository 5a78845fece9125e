-- ===== src/Structs/Directory.antt =====
-- directory.rs: the structs.
use xirtam_core.Prelude.{ℕ, String, List}
use xirtam_core.Structs.Ids.{Bytes, Hash, SigningPublic, Signature, Timestamp, Blob}

pub data DirectoryErr : Type 0 where
  retry_later : DirectoryErr
  update_rejected : String → DirectoryErr

pub record PowSeed : Type 0 where
  pub effort : ℕ
  pub seed : Hash
  pub use_before : Timestamp

pub record PowSolution : Type 0 where
  pub seed : Hash
  pub nonce : ℕ
  pub solution : Bytes

pub record DirectoryAnchor : Type 0 where
  pub directory_id : String
  pub last_header_height : ℕ
  pub last_header_hash : Hash
  pub signature : Signature

pub record DirectoryHeader : Type 0 where
  pub prev : Hash
  pub smt_root : Hash
  pub time_unix : ℕ

pub data DirectoryUpdateInner : Type 0 where
  add_owner del_owner : SigningPublic → DirectoryUpdateInner
  update : Blob → DirectoryUpdateInner

pub record DirectoryUpdate : Type 0 where
  pub prev_update_hash : Hash
  pub update_type : DirectoryUpdateInner
  pub signature : Signature

pub record DirectoryChunk : Type 0 where
  pub header : DirectoryHeader
  pub updates : List (String × List DirectoryUpdate)

pub data DirectoryHistoryError : Type 0 where
  no_owners invalid_signature invalid_prev_hash : DirectoryHistoryError

pub record DirectoryResponse : Type 0 where
  pub history : List DirectoryUpdate
  pub proof_height : ℕ
  pub proof_merkle_branch : Bytes
