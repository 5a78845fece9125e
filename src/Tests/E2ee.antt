-- ===== src/Tests/E2ee.antt =====
-- A device writes to two keys, and to a group.
use xirtam_core.Prelude.{◌≡◌, ◌⊎◌, refl, inl, inr, true, ok, some, List, [], ◌∷◌}
use xirtam_core.Structs.{Bytes, DhPublic, Blob}
use xirtam_core.E2ee.{
  DeviceSigned, HeaderEncrypted, GroupMessage, Event, user, sign_blob, chain_ok, verify_blob,
  diffie_hellman, mpk_short, seal_headers, encrypt_bytes, decrypt_bytes, message_blob,
  encrypt_message, decrypt_message,
}
use xirtam_core.E2ee.Headers.{WrongKey}
use xirtam_core.E2ee.Messages.{direct_message_read, group_message_read}
use xirtam_core.Tests.Toy.{toy, toy-SignsCorrectly}
use xirtam_core.Tests.Ciphers.{toy_ciphers, toy_ciphers-IsSound}
use xirtam_core.Tests.Certificate.{chain, trusted, accepted, phone-pk}

chained : chain_ok toy toy_ciphers 100 chain trusted ≡ true
chained = rw (accepted, chain_ok) refl

abbrev message : Blob
message = record { kind = "v1.message_content"; inner = 1 ∷ 2 ∷ [] }

abbrev written : Bytes
written = toy_ciphers.bcs_signed (sign_blob toy toy_ciphers message "@alice" chain 2)

abbrev recipients : List DhPublic
recipients = 40 ∷ 41 ∷ []

abbrev sealed : HeaderEncrypted
sealed = record {
  sender_epk = 30;
  headers =
      record {
        receiver_mpk_short = mpk_short toy toy_ciphers 40;
        receiver_key = toy_ciphers.aead_key_bytes 77;
      }
      ∷ record {
        receiver_mpk_short = mpk_short toy toy_ciphers 41;
        receiver_key = toy_ciphers.aead_key_bytes 77;
      }
      ∷ [];
  body = 77 ∷ written;
}

is_sealed : encrypt_bytes toy toy_ciphers 30 77 written recipients ≡ ok sealed
unfolding encrypt_bytes seal_headers diffie_hellman
is_sealed = refl

direct_message_read_example :
    ((bytes : Bytes) × (signed : DeviceSigned) × (decrypt_bytes toy toy_ciphers 41 sealed
        ≡ ok bytes)
      × (toy_ciphers.bcs_read_signed bytes ≡ some signed)
      × (verify_blob toy toy_ciphers 100 trusted signed ≡ ok message))
    ⊎ WrongKey toy toy_ciphers sealed.body
        (toy_ciphers.bcs_header_aad sealed.sender_epk sealed.headers)
        written
direct_message_read_example =
    direct_message_read toy toy_ciphers toy_ciphers-IsSound toy-SignsCorrectly 100 trusted "@alice"
      chain 2 chained phone-pk 30 41 77 message recipients sealed is_sealed (inr (inl refl))

abbrev event : Event
event = record { recipient = user "@bob"; sent_at = 5; mime = "text/plain"; body = 104 ∷ [] }

abbrev group_message : GroupMessage
group_message = record {
  nonce = 3;
  ciphertext =
      77
      ∷ toy_ciphers.bcs_signed
          (sign_blob toy toy_ciphers (message_blob toy toy_ciphers event) "@alice" chain 2);
}

is_encrypted : encrypt_message toy toy_ciphers 3 event "@alice" chain 2 77 ≡ ok group_message
unfolding encrypt_message
is_encrypted = refl

group_message_reads :
    (signed : DeviceSigned) × (decrypt_message toy toy_ciphers 77 group_message ≡ ok signed)
    × (verify_blob toy toy_ciphers 100 trusted signed ≡ ok (message_blob toy toy_ciphers event))
    × (toy_ciphers.bcs_read_event (message_blob toy toy_ciphers event).inner ≡ some event)
group_message_reads =
    group_message_read toy toy_ciphers toy_ciphers-IsSound toy-SignsCorrectly 100 trusted "@alice"
      chain 2 chained phone-pk 3 event 77 group_message is_encrypted
