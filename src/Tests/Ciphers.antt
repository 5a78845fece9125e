-- ===== src/Tests/Ciphers.antt =====
-- Ciphers that can be evaluated; none is secure. Messages are written as the toy's histories.
use xirtam_core.Prelude.{
  ℕ, ◌+◌, ◌*◌, ◌≡◌, refl, sym, ◌∙◌, ap, Bool, true, false, Option, none, some, List, [], ◌∷◌,
  String, ◌==◌, nat_eq, nat_beq_iff, some-inj, arith, if◌then◌else◌,
}
use xirtam_core.Structs.{
  Bytes, Blob, DeviceCertificate, DirectoryUpdate, DirectoryUpdateInner, add_owner, del_owner,
  update,
}
use xirtam_core.E2ee.{Ciphers, IsSound, DeviceSigned, Event, Recipient, user, group}
use xirtam_core.Tests.Toy.{pack, text}
use xirtam_core.Tests.Codec.{write_history, read_history, read-write_history}

abbrev tagged : String → Bytes → DirectoryUpdate
tagged kind inner = record {
  prev_update_hash = 0;
  update_type = update (record { kind = kind; inner = inner });
  signature = 0;
}

abbrev as_blob : List DirectoryUpdate → Option Blob
as_blob [] = none
as_blob (u ∷ us) = elim u.update_type [ update b ↦ some b | _ ↦ none ]

abbrev read_with : {A : Type 0} → (List DirectoryUpdate → Option A) → Bytes → Option A
read_with f bytes = elim (read_history bytes) [ none ↦ none | some us ↦ f us ]

read_with-write :
    {A : Type 0} (f : List DirectoryUpdate → Option A) (us : List DirectoryUpdate)
    → read_with f (write_history us) ≡ f us
read_with-write f us = rw (read-write_history us, read_with) refl

abbrev recipient_update : Recipient → DirectoryUpdate
recipient_update (user name) = tagged name []
recipient_update (group id) = record {
  prev_update_hash = 0;
  update_type = add_owner id;
  signature = 0;
}

abbrev to_recipient : DirectoryUpdateInner → Option Recipient
to_recipient (update b) = some (user b.kind)
to_recipient (add_owner id) = some (group id)
to_recipient (del_owner id) = none

abbrev event_list : Event → List DirectoryUpdate
event_list e = tagged e.mime (e.sent_at ∷ e.body) ∷ recipient_update e.recipient ∷ []

abbrev event_of : DirectoryUpdateInner → Option Recipient → Option Event
event_of (update b) (some r) = elim b.inner [
  | [] ↦ none
  | sent_at ∷ body ↦ some (record { recipient = r; sent_at = sent_at; mime = b.kind; body = body })
]
event_of _ _ = none

abbrev as_event : List DirectoryUpdate → Option Event
as_event [] = none
as_event (u ∷ []) = none
as_event (u ∷ v ∷ us) = event_of u.update_type (to_recipient v.update_type)

to_recipient-recipient_update :
    (r : Recipient) → to_recipient (recipient_update r).update_type ≡ some r
to_recipient-recipient_update (user name) = refl
to_recipient-recipient_update (group id) = refl

abbrev issue_flag : Bool → ℕ → DirectoryUpdateInner
issue_flag true expiry = add_owner expiry
issue_flag false expiry = del_owner expiry

abbrev certificate_update : DeviceCertificate → DirectoryUpdate
certificate_update c = record {
  prev_update_hash = c.pk;
  update_type = issue_flag c.can_issue c.expiry;
  signature = c.signature;
}

abbrev certificate_with : DirectoryUpdate → DirectoryUpdateInner → Option DeviceCertificate
certificate_with u (add_owner expiry) =
    some (record {
      pk = u.prev_update_hash;
      expiry = expiry;
      can_issue = true;
      signature = u.signature;
    })
certificate_with u (del_owner expiry) = some (record {
  pk = u.prev_update_hash;
  expiry = expiry;
  can_issue = false;
  signature = u.signature;
})
certificate_with u (update b) = none

certificate_back :
    (pk expiry sig : ℕ) (can_issue : Bool) (u : DirectoryUpdate)
    → u.prev_update_hash ≡ pk
    → u.signature ≡ sig
    → certificate_with u (issue_flag can_issue expiry)
      ≡ some (record { pk = pk; expiry = expiry; can_issue = can_issue; signature = sig })
certificate_back pk expiry sig true u e f = cc
certificate_back pk expiry sig false u e f = cc

abbrev certificate_list : List DeviceCertificate → List DirectoryUpdate
certificate_list [] = []
certificate_list (c ∷ cs) = certificate_update c ∷ certificate_list cs

abbrev push_certificate :
    Option DeviceCertificate → Option (List DeviceCertificate) → Option (List DeviceCertificate)
push_certificate (some c) (some cs) = some (c ∷ cs)
push_certificate _ _ = none

abbrev as_certificates : List DirectoryUpdate → Option (List DeviceCertificate)
as_certificates [] = some []
as_certificates (u ∷ us) = push_certificate (certificate_with u u.update_type) (as_certificates us)

as_certificates-list :
    (cs : List DeviceCertificate) → as_certificates (certificate_list cs) ≡ some cs
as_certificates-list [] = refl
as_certificates-list (c ∷ cs) =
    ap (push_certificate _) (as_certificates-list cs)
    ∙ ap (λ d. push_certificate d (some cs))
        (certificate_back c.pk c.expiry c.signature c.can_issue (certificate_update c) refl refl)

abbrev signed_list : DeviceSigned → List DirectoryUpdate
signed_list s =
    (record {
      prev_update_hash = 0;
      update_type = update (record { kind = s.sender; inner = s.body });
      signature = s.signature;
    })
    ∷ certificate_list (s.cert_chain.this ∷ s.cert_chain.ancestors)

abbrev signed_of : ℕ → DirectoryUpdateInner → Option (List DeviceCertificate) → Option DeviceSigned
signed_of sig (update b) (some (this ∷ ancestors)) = some (record {
  sender = b.kind;
  cert_chain = record { ancestors = ancestors; this = this };
  body = b.inner;
  signature = sig;
})
signed_of _ _ _ = none

abbrev as_signed : List DirectoryUpdate → Option DeviceSigned
as_signed [] = none
as_signed (u ∷ us) = signed_of u.signature u.update_type (as_certificates us)

abbrev key_tail : Bytes
key_tail =
    0 ∷ 0 ∷ 0 ∷ 0 ∷ 0 ∷ 0 ∷ 0 ∷ 0 ∷ 0 ∷ 0 ∷ 0 ∷ 0 ∷ 0 ∷ 0 ∷ 0 ∷ 0 ∷ 0 ∷ 0 ∷ 0 ∷ 0 ∷ 0 ∷ 0 ∷ 0 ∷ 0
    ∷ 0 ∷ 0 ∷ 0 ∷ 0 ∷ 0 ∷ 0 ∷ 0 ∷ []

abbrev first_byte : Bytes → ℕ
first_byte [] = 0
first_byte (b ∷ bs) = b

abbrev open_with : ℕ → Bytes → Option Bytes
open_with key [] = none
open_with key (k ∷ plaintext) = if key == k then some plaintext else none

abbrev pub toy_ciphers : Ciphers
toy_ciphers = record {
  x25519_public = λ s. s;
  x25519 = λ s k. s * k + 1;
  keystream = λ k n bs. bs;
  aead_encrypt = λ k n p aad. some (k ∷ p);
  aead_decrypt = λ k n c aad. open_with k c;
  aead_key_bytes = λ k. k ∷ key_tail;
  aead_key_from_bytes = first_byte;
  bcs_dh_public = λ k. k ∷ [];
  bcs_header_aad = λ k hs. k ∷ [];
  bcs_signed_body = λ s c b. pack (text s) ∷ c.this.pk ∷ b;
  bcs_blob = λ b. write_history (tagged b.kind b.inner ∷ []);
  bcs_read_blob = read_with as_blob;
  bcs_event = λ e. write_history (event_list e);
  bcs_read_event = read_with as_event;
  bcs_signed = λ s. write_history (signed_list s);
  bcs_read_signed = read_with as_signed;
}

commutes : (a b : ℕ) → a * b + 1 ≡ b * a + 1
commutes a b = omega arith

pub toy_ciphers-IsSound : IsSound toy_ciphers
toy_ciphers-IsSound = record {
  agree = commutes;
  undone = λ k n bs. refl;
  opens = λ k n p aad c h.
      ap (open_with k) (sym (some-inj h))
      ∙ ap (λ b. if b then some p else none) ((nat_beq_iff k k).1 refl);
  key_size = λ k. refl;
  key_back = λ k. refl;
  blob_back = λ b. read_with-write as_blob (tagged b.kind b.inner ∷ []);
  event_back = λ e.
      read_with-write as_event (event_list e)
      ∙ ap (event_of (update (record { kind = e.mime; inner = e.sent_at ∷ e.body })))
          (to_recipient-recipient_update e.recipient);
  signed_back = λ s.
      read_with-write as_signed (signed_list s)
      ∙ ap (signed_of s.signature (update (record { kind = s.sender; inner = s.body })))
          (as_certificates-list (s.cert_chain.this ∷ s.cert_chain.ancestors));
}
