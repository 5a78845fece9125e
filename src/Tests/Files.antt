-- ===== src/Tests/Files.antt =====
-- A fragment of the device of Tests/Device, and a profile.
use xirtam_core.Prelude.{
  inr, ◌+◌, ◌*◌, ◌≡◌, refl, true, false, none, some, [], ◌∷◌, ◌==◌, nat_eq, string_eq, ok,
}
use xirtam_core.Prelude.Dict.{lookup, insert, without}
use xirtam_core.Structs.{Hash, Fragment, leaf, UserProfile}
use xirtam_core.Crypto.{digest, keyed_digest, verify}
use xirtam_core.Certificate.{last_device}
use xirtam_core.Server.Database.{i64_leb}
use xirtam_core.Server.Mailbox.{auth_token_exists}
use xirtam_core.Server.Fragments.{
  FragmentRow, FragmentStore, upload_frag, download_frag, fragment_hash, upsert_fragment_row,
  later_expiry, expires_at_from_ttl, is_expired, janitor_once, janitor_loop, delete_all,
}
use xirtam_core.Server.Fragments.Expiry.{Outlives, upload_frag_extends}
use xirtam_core.Server.Fragments.Janitor.{Lives, janitor_spares}
use xirtam_core.Server.Profile.{profile_set, profile_get, Accepted, profile_set_sound}
use xirtam_core.Tests.Toy.{toy, pack}
use xirtam_core.Tests.Device.{with_device}

abbrev bytes : Fragment
bytes = leaf (record { nonce = 3; payload = 4 ∷ 5 ∷ [] })

abbrev key : Hash
key = pack (toy.bcs_fragment bytes)

-- the fragment is there, and is to expire at 2000
abbrev store : FragmentStore
store = record {
  files = (key, bytes) ∷ [];
  fragments = (key, record { created_at = 10; expires_at = some 2000; size = 4 }) ∷ [];
}

abbrev longer : FragmentStore
longer = record {
  files = (key, bytes) ∷ [];
  fragments = (key, record { created_at = 10; expires_at = some 2000000100; size = 4 }) ∷ [];
}

uploaded : upload_frag toy 100 77 bytes 2 with_device store ≡ ok longer
unfolding upload_frag auth_token_exists fragment_hash digest upsert_fragment_row later_expiry
    expires_at_from_ttl lookup insert without
uploaded = refl

cleaned : janitor_once 3000 store ≡ record { files = []; fragments = [] }
unfolding janitor_once janitor_loop is_expired i64_leb delete_all without
cleaned = refl

spared : janitor_once 3000 longer ≡ longer
unfolding janitor_once janitor_loop is_expired i64_leb delete_all without
spared = refl

upload_frag_extends_example :
    (auth_token_exists toy with_device 77 ≡ true)
    × (download_frag (fragment_hash toy bytes) longer ≡ some bytes)
    × ((kept : FragmentRow) × (lookup (fragment_hash toy bytes) longer.fragments ≡ some kept)
        × Outlives kept.expires_at (expires_at_from_ttl 100 2)
        × ((old : FragmentRow)
            → lookup (fragment_hash toy bytes) store.fragments ≡ some old
            → Outlives kept.expires_at old.expires_at))
    × ((other : Hash)
        → (fragment_hash toy bytes == other) ≡ false
        → download_frag other longer ≡ download_frag other store)
upload_frag_extends_example =
    upload_frag_extends toy 100 77 bytes 2 with_device store longer uploaded

abbrev profile : UserProfile
profile = record {
  display_name = some "Ada";
  avatar = none;
  created = 20;
  signature = 1002 + pack (pack (pack (toy.text_bytes "user_profile") ∷ 20 ∷ []) ∷ []) * 10007;
}

set : profile_set toy "@ada" profile with_device [] ≡ ok (("@ada", profile) ∷ [])
unfolding profile_set profile_get lookup insert without verify last_device keyed_digest
set = refl

profile_set_sound_example : Accepted toy "@ada" profile with_device [] (("@ada", profile) ∷ [])
profile_set_sound_example =
    profile_set_sound toy "@ada" profile with_device [] (("@ada", profile) ∷ []) set

longer-Lives : Lives 3000 key longer.fragments
unfolding is_expired i64_leb
longer-Lives = (inr refl, tt)

janitor_spares_example :
    (download_frag key (janitor_once 3000 longer) ≡ download_frag key longer)
    × (lookup key (janitor_once 3000 longer).fragments ≡ lookup key longer.fragments)
janitor_spares_example = janitor_spares 3000 key longer longer-Lives
