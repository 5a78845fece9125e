-- ===== src/Structs/Server.antt =====
-- server.rs: the structs and errors of the servers' protocol.
use xirtam_core.Prelude.{Bool, Option}
use xirtam_core.Structs.Ids.{
  Hash, Signature, DhPublic, Timestamp, NanoTimestamp, AuthToken, MailboxId, Blob,
}

pub record SignedMediumPk : Type 0 where
  pub medium_pk : DhPublic
  pub created : Timestamp
  pub signature : Signature

pub record MailboxRecvArgs : Type 0 where
  pub auth : AuthToken
  pub mailbox : MailboxId
  pub after : NanoTimestamp

pub record MailboxEntry : Type 0 where
  pub message : Blob
  pub received_at : NanoTimestamp
  pub sender_auth_token_hash : Option Hash

pub record MailboxAcl : Type 0 where
  pub token_hash : Hash
  pub can_edit_acl : Bool
  pub can_send : Bool
  pub can_recv : Bool

pub data ServerRpcError : Type 0 where
  access_denied retry_later : ServerRpcError
