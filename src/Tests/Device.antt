-- ===== src/Tests/Device.antt =====
-- Two requests for a device's token.
use xirtam_core.Prelude.{◌+◌, ◌*◌, ◌≡◌, refl, false, some, [], ◌∷◌, nat_eq, string_eq, ok}
use xirtam_core.Prelude.Dict.{lookup, insert, without}
use xirtam_core.Structs.{Hash, CertificateChain, UserDescriptor, SignedMediumPk}
use xirtam_core.Crypto.{digest, verify}
use xirtam_core.Certificate.{pk_hash, last_device}
use xirtam_core.Server.Database.{Database, empty_database}
use xirtam_core.Server.Mailbox.Refs.{IsLinked}
use xirtam_core.Server.Device.{token_row, certificate_of, device_auth, device_add_medium_pk}
use xirtam_core.Server.Device.Auth.{
  Entitled, Enrolled, answer, device_auth_sound, device_auth-Enrolled,
}
use xirtam_core.Server.Device.Keys.{Owner, device_add_medium_pk_sound}
use xirtam_core.Tests.Toy.{toy, pack}
use xirtam_core.Tests.Certificate.{trusted, chain, accepted}

abbrev descriptor : UserDescriptor
descriptor = record { server_name = "~main"; root_cert_hash = trusted }

abbrev no_mailbox : Database
no_mailbox = empty_database

linked : IsLinked no_mailbox
unfolding lookup
linked = record { acl = λ mailbox token row e. cc; entries = tt }

entitled : Entitled toy (some (some descriptor)) "~main" 100 5000 77 "@ada" chain no_mailbox
entitled = record {
  descriptor = descriptor;
  answered = refl;
  here = refl;
  chain = rw accepted refl;
}

device_auth-Enrolled_example :
    (db' : Database) × (device_auth toy
        (some (some descriptor))
        "~main"
        100
        5000
        77
        "@ada"
        chain
        no_mailbox
      ≡ ok (answer toy (some (some descriptor)) "~main" 100 5000 77 "@ada" chain no_mailbox, db'))
    × Enrolled toy (some (some descriptor)) "~main" 100 5000 77 "@ada" chain no_mailbox db'
device_auth-Enrolled_example =
    device_auth-Enrolled toy (some (some descriptor)) "~main" 100 5000 77 "@ada" chain no_mailbox
      linked entitled

enrolled :
    (db' : Database) × (device_auth toy
        (some (some descriptor))
        "~main"
        100
        5000
        77
        "@ada"
        chain
        no_mailbox
      ≡ ok (answer toy (some (some descriptor)) "~main" 100 5000 77 "@ada" chain no_mailbox, db'))
    × Enrolled toy (some (some descriptor)) "~main" 100 5000 77 "@ada" chain no_mailbox db'
enrolled =
    device_auth-Enrolled toy (some (some descriptor)) "~main" 100 5000 77 "@ada" chain no_mailbox
      linked entitled

device_auth_sound_example :
    Entitled toy (some (some descriptor)) "~main" 100 5000 77 "@ada" chain no_mailbox
device_auth_sound_example =
    device_auth_sound toy (some (some descriptor)) "~main" 100 5000 77 "@ada" chain no_mailbox
      (answer toy (some (some descriptor)) "~main" 100 5000 77 "@ada" chain no_mailbox) enrolled.0
      enrolled.1

abbrev pub device : CertificateChain
device = record {
  ancestors = [];
  this = record { pk = 1002; expiry = 900; can_issue = false; signature = 0 };
}

abbrev pub device_key : Hash
device_key = pack (1002 ∷ [])

abbrev pub with_device : Database
with_device = record empty_database {
  device_certificates = (device_key, ("@ada", device)) ∷ [];
  device_auth_tokens = (("@ada", device_key), 77) ∷ [];
}

abbrev medium : SignedMediumPk
medium = record { medium_pk = 5; created = 9; signature = 1002 + pack (5 ∷ 9 ∷ []) * 10007 }

abbrev with_key : Database
with_key = record with_device { device_medium_pks = (device_key, medium) ∷ [] }

added : device_add_medium_pk toy 77 medium with_device ≡ ok with_key
unfolding device_add_medium_pk token_row certificate_of lookup pk_hash digest verify insert without
    last_device
added = refl

device_add_medium_pk_sound_example : Owner toy 77 medium with_device with_key
device_add_medium_pk_sound_example =
    device_add_medium_pk_sound toy 77 medium with_device with_key added
