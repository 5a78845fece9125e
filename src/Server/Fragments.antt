-- ===== src/Server/Fragments.antt =====
-- binaries/nullspace-server/src/fragment.rs: the fragments' files and their rows. A file stands at
-- its fragment's hash, which names its path. Failures of the disk are not modelled.

pub mod Expiry
pub mod Janitor
use xirtam_core.Prelude.{
  ℕ, zero, suc, ◌^◌, Bool, true, false, not, ◌&&◌, Option, none, some, List, [], ◌∷◌, keep, take,
  map, length, ltb, ◌==◌, nat_eq, lookup, insert, without, Result, ok, err, guard, ◌>>=◌, ◌>>◌,
  if◌then◌else◌,
}
use xirtam_core.Structs.{
  Hash, AuthToken, NanoTimestamp, Fragment, ServerRpcError, access_denied, retry_later,
}
use xirtam_core.Env.{Env}
use xirtam_core.Crypto.{digest}
use xirtam_core.Server.Database.{Database, i64_leb, i64_ltb, saturating_add, saturating_mul}
use xirtam_core.Server.Mailbox.{auth_token_exists}

-- a row of `fragments`, behind its key `hash`
pub record FragmentRow : Type 0 where
  pub created_at : NanoTimestamp
  pub expires_at : Option ℕ
  pub size : ℕ

pub record FragmentStore : Type 0 where
  pub files : List (Hash × Fragment)
  pub fragments : List (Hash × FragmentRow)

unfoldable pub expires_at_from_ttl : NanoTimestamp → ℕ → Option ℕ
unfolding saturating_add saturating_mul
expires_at_from_ttl now ttl =
    if ttl == 0 then none else some (saturating_add now (saturating_mul ttl 1_000_000_000))

-- the CASE of the statement, of the row's time and the new one
unfoldable pub later_expiry : Option ℕ → Option ℕ → Option ℕ
unfolding i64_ltb
later_expiry none new = none
later_expiry (some old) none = none
later_expiry (some old) (some new) = some (if i64_ltb new old then old else new)

unfoldable pub upsert_fragment_row :
    Hash → FragmentRow → List (Hash × FragmentRow) → List (Hash × FragmentRow)
upsert_fragment_row hash row rows = elim (lookup hash rows) [
  | none ↦ insert hash row rows
  | some old ↦
      insert hash
        (record old { expires_at = later_expiry old.expires_at row.expires_at; size = row.size })
        rows
]

-- expires_at IS NOT NULL AND expires_at <= now
unfoldable pub is_expired : NanoTimestamp → FragmentRow → Bool
is_expired now row = elim row.expires_at [ some t ↦ i64_leb t now | none ↦ false ]

unfoldable pub download_frag : Hash → FragmentStore → Option Fragment
download_frag hash store = lookup hash store.files

-- the loop over a batch of `janitor_once`: it deletes each row, and its file
unfoldable pub delete_all : List (Hash × FragmentRow) → FragmentStore → FragmentStore
delete_all [] store = store
delete_all ((hash, row) ∷ rows) store =
    delete_all rows
      (record { files = without hash store.files; fragments = without hash store.fragments })

-- `janitor_once`. SQL may pick any 500 rows, and here it picks the first. Each turn deletes a row,
-- so that the number of rows and one is enough fuel.
unfoldable pub janitor_loop : ℕ → NanoTimestamp → FragmentStore → FragmentStore
janitor_loop zero now store = store
janitor_loop (suc fuel) now store =
    elim (take 500 (keep (λ row. is_expired now row.1) store.fragments)) [
      | [] ↦ store
      | row ∷ rows ↦ janitor_loop fuel now (delete_all (row ∷ rows) store)
    ]

unfoldable pub janitor_once : NanoTimestamp → FragmentStore → FragmentStore
janitor_once now store = janitor_loop (suc (length store.fragments)) now store

module _ (env : Env) where
  -- `frag.bcs_hash()`
  unfoldable pub fragment_hash : Fragment → Hash
  fragment_hash frag = digest env (env.bcs_fragment frag)

  unfoldable pub upload_frag :
      NanoTimestamp
      → AuthToken
      → Fragment
      → ℕ
      → Database
      → FragmentStore
      → Result ServerRpcError FragmentStore
  unfolding fragment_hash
  upload_frag now auth frag ttl db store = do
    guard (auth_token_exists env db auth) access_denied
    let hash = fragment_hash frag
    let size = length (env.bcs_fragment frag)
    guard (ltb size (2 ^ 63)) retry_later
    ok (record {
      files = insert hash frag store.files;
      fragments =
          upsert_fragment_row hash
            (record { created_at = now; expires_at = expires_at_from_ttl now ttl; size = size })
            store.fragments;
    })
