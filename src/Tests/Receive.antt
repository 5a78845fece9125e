-- ===== src/Tests/Receive.antt =====
-- Bob's device handles a message that Alice's phone wrote to him.
use xirtam_core.Prelude.{◌≡◌, refl, some, none, [], ◌∷◌}
use xirtam_core.Prelude.Dict.{lookup, insert, without}
use xirtam_core.Structs.{Bytes, MailboxEntry}
use xirtam_core.E2ee.{
  HeaderEncrypted, Event, user, sign_blob, mpk_short, message_blob, decrypt_bytes, diffie_hellman,
  try_headers, open_header, sign_bytes, verify_blob, verify_bytes,
}
use xirtam_core.Crypto.{sign, verify, public_key, digest}
use xirtam_core.Certificate.{
  verify_chain, take_roots, admit_root, vouched_for, pass, rounds, self_signed, issue_certificate,
  pk_hash, last_device,
}
use xirtam_core.Client.Receive.{
  Identity, ClientDb, ConvoMessage, process_mailbox_entry, dm_recv_loop_once, load_mailbox_after,
  update_mailbox_after, open_event, decrypt_either, verified, read_content, dm_peer, store_dm,
  store_attachment, ensure_convo_id, insert_message,
}
use xirtam_core.Client.Receive.Genuine.{AddsGenuine, process_mailbox_entry_sound}
use xirtam_core.Client.Receive.Position.{dm_recv_loop_once_resumes}
use xirtam_core.Tests.Toy.{toy}
use xirtam_core.Tests.Ciphers.{toy_ciphers}
use xirtam_core.Tests.Certificate.{chain, trusted}

abbrev event : Event
event = record { recipient = user "@bob"; sent_at = 5; mime = "text/plain"; body = 104 ∷ [] }

abbrev written : Bytes
written =
    toy_ciphers.bcs_signed
      (sign_blob toy toy_ciphers (message_blob toy toy_ciphers event) "@alice" chain 2)

abbrev sealed : HeaderEncrypted
sealed = record {
  sender_epk = 30;
  headers =
      record {
        receiver_mpk_short = mpk_short toy toy_ciphers 41;
        receiver_key = toy_ciphers.aead_key_bytes 77;
      }
      ∷ [];
  body = 77 ∷ written;
}

abbrev bob : Identity
bob = record { username = "@bob"; medium_sk_current = 41; medium_sk_prev = 40 }

abbrev received : MailboxEntry
received = record {
  message = record { kind = "v1.direct_message"; inner = 9 ∷ [] };
  received_at = 60;
  sender_auth_token_hash = none;
}

abbrev start : ClientDb
start = record {
  mailbox_state = (("home", 7), 0) ∷ [];
  convos = [];
  convo_messages = [];
  attachment_roots = [];
}

abbrev after : ClientDb
after =
    (process_mailbox_entry toy toy_ciphers (λ _. some sealed) (λ _. none) (λ _. [])
      (λ _. some trusted) 100 61 bob "home" 7 received start).1

process_mailbox_entry_sound_example :
    AddsGenuine toy toy_ciphers
      (λ _. some sealed)
      (λ _. none)
      (λ _. [])
      (λ _. some trusted)
      100
      "@bob"
      60
      []
      after.convo_messages
process_mailbox_entry_sound_example =
    process_mailbox_entry_sound toy toy_ciphers (λ _. some sealed) (λ _. none) (λ _. [])
      (λ _. some trusted) 100 61 bob "home" 7 received start

abbrev stored : ConvoMessage
stored = record {
  id = 1;
  convo_id = 1;
  sender_username = "@alice";
  mime = "text/plain";
  body = 104 ∷ [];
  sent_at = 5;
  received_at = some 60;
}

-- the message is there
is_stored : after.convo_messages ≡ stored ∷ []
unfolding process_mailbox_entry update_mailbox_after open_event decrypt_either decrypt_bytes
    diffie_hellman try_headers open_header sign_blob sign_bytes message_blob mpk_short verified
    verify_blob verify_bytes verify_chain take_roots admit_root vouched_for pass rounds self_signed
    issue_certificate pk_hash read_content dm_peer store_dm store_attachment ensure_convo_id
    insert_message lookup insert without sign verify public_key digest last_device
is_stored = refl

-- The second entry does not open, and its turn counts all the same.
abbrev unread : MailboxEntry
unread = record {
  message = record { kind = "v1.group_message"; inner = [] };
  received_at = 70;
  sender_auth_token_hash = none;
}

dm_recv_loop_once_resumes_example :
    load_mailbox_after "home" 7
      (dm_recv_loop_once toy toy_ciphers
        (λ _. some sealed)
        (λ _. none)
        (λ _. [])
        (λ _. some trusted)
        100
        bob
        "home"
        7
        ((61, received) ∷ (71, unread) ∷ [])
        start).1
    ≡ (dm_recv_loop_once toy toy_ciphers
        (λ _. some sealed)
        (λ _. none)
        (λ _. [])
        (λ _. some trusted)
        100
        bob
        "home"
        7
        ((61, received) ∷ (71, unread) ∷ [])
        start).0
dm_recv_loop_once_resumes_example =
    dm_recv_loop_once_resumes "home" 7 toy toy_ciphers (λ _. some sealed) (λ _. none) (λ _. [])
      (λ _. some trusted) 100 bob ((61, received) ∷ (71, unread) ∷ []) start
