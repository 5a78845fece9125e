-- ===== src/Structs/Files.antt =====
-- fragment.rs and profile.rs: attachments, their fragments, and profiles.
use xirtam_core.Prelude.{ℕ, String, Option, List}
use xirtam_core.Structs.Ids.{Bytes, Hash, Signature, Timestamp}

-- [u8; 32]
abbrev pub AeadKey : Type 0
AeadKey = ℕ

pub record Attachment : Type 0 where
  pub filename : String
  pub mime : String
  pub children : List (Hash × ℕ)
  pub content_key : AeadKey

pub record FragmentNode : Type 0 where
  pub children : List (Hash × ℕ)

-- the nonce is a [u8; 24]; `payload` is the field `data`
pub record FragmentLeaf : Type 0 where
  pub nonce : ℕ
  pub payload : Bytes

pub data Fragment : Type 0 where
  node : FragmentNode → Fragment
  leaf : FragmentLeaf → Fragment

pub record UserProfile : Type 0 where
  pub display_name : Option String
  pub avatar : Option Attachment
  pub created : Timestamp
  pub signature : Signature
