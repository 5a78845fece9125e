-- ===== src/Tests/Toy.antt =====
-- An environment that can be evaluated. Its hash is a number that determines the bytes, and its
-- signatures name the key and the hash of what was signed; neither is secure.
use Prim.Native.Char.{code}
use xirtam_core.Prelude.{
  List, ◌≡◌, ℕ, ◌+◌, ◌*◌, refl, Bool, true, false, String, [], ◌∷◌, ◌++◌, map, ◌==◌, nat_eq,
  nat_beq_iff,
}
use xirtam_core.Structs.{
  Bytes, DirectoryUpdate, DirectoryUpdateInner, add_owner, del_owner, update, Fragment, node, leaf,
}
use xirtam_core.Env.{Env, SignsCorrectly, ReadsHistories}
use xirtam_core.Tests.Codec.{write_history, read_history, read-write_history}

abbrev pub pack : Bytes → ℕ
pack [] = 1
pack (b ∷ bs) = pack bs * 1000003 + b + 1

abbrev pub text : String → Bytes
text String.[] = []
text (String.◌∷◌ c s) = code c ∷ text s

abbrev pub bit : Bool → ℕ
bit true = 1
bit false = 0

abbrev pub inner_bytes : DirectoryUpdateInner → Bytes
inner_bytes (add_owner k) = 0 ∷ k ∷ []
inner_bytes (del_owner k) = 1 ∷ k ∷ []
inner_bytes (update b) = 2 ∷ text b.kind ++ 0 ∷ b.inner

abbrev pub fragment_bytes : Fragment → Bytes
fragment_bytes (node n) = 0 ∷ map (λ c. c.0) n.children
fragment_bytes (leaf l) = 1 ∷ l.nonce ∷ l.payload

abbrev pub toy : Env
toy = record {
  blake3 = pack;
  blake3_keyed = λ k m. pack (k ∷ m);
  ed25519_public = λ s. s + 1000;
  ed25519_sign = λ s m. s + 1000 + pack m * 10007;
  ed25519_verify = λ k s m. s == k + pack m * 10007;
  bcs_public = λ k. k ∷ [];
  bcs_certificate_body = λ k e c. k ∷ e ∷ bit c ∷ [];
  bcs_update_body = λ h i. h ∷ inner_bytes i;
  bcs_update = λ u. u.prev_update_hash ∷ u.signature ∷ inner_bytes u.update_type;
  bcs_anchor_body = λ d n h. n ∷ h ∷ text d;
  bcs_header = λ h. h.prev ∷ h.smt_root ∷ h.time_unix ∷ [];
  bcs_medium_pk_body = λ k t. k ∷ t ∷ [];
  bcs_token = λ t. t ∷ [];
  bcs_profile_body = λ n a t. t ∷ [];
  bcs_fragment = fragment_bytes;
  bcs_history = write_history;
  bcs_read_history = read_history;
  hash_bytes = λ h. h ∷ [];
  text_bytes = text;
}

pub toy-SignsCorrectly : SignsCorrectly toy
toy-SignsCorrectly secret message = (nat_beq_iff _ _).1 refl

write_history_starts :
    (us : List DirectoryUpdate) → (b : ℕ) × (bs : Bytes) × (write_history us ≡ b ∷ bs)
write_history_starts [] = (_, _, refl)
write_history_starts (u ∷ us) = (_, _, refl)

pub toy-ReadsHistories : ReadsHistories toy
toy-ReadsHistories us = (write_history_starts us, read-write_history us)
