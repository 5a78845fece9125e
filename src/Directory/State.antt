-- ===== src/Directory/State.antt =====
-- The state of a directory server: binaries/nullspace-directory/src/state.rs, and the tables with
-- the statements of db.rs. Heights and seconds stay below 2 ^ 63, where the casts of db.rs to and
-- from i64 change nothing. An entry of a table stands for its BCS bytes.
use xirtam_core.Prelude.{
  ℕ, zero, suc, ◌+◌, ◌-◌, Option, none, some, List, [], ◌∷◌, String, ltb, nat_eq, lookup, insert,
  if◌then◌else◌,
}
use xirtam_core.Structs.{
  Hash, SigningSecret, Timestamp, PowSeed, DirectoryAnchor, DirectoryHeader, DirectoryUpdate,
  DirectoryChunk,
}
use xirtam_core.Directory.Headers.{Headers, max_stored_height, load_header}

-- the anchor that the last sync accepted
pub record MirrorState : Type 0 where
  pub anchor : Option DirectoryAnchor

-- `BTreeMap<String, Vec<DirectoryUpdate>>`; its order of keys is the list's
abbrev pub Updates : Type 0
Updates = List (String × List DirectoryUpdate)

pub record DirectoryState : Type 0 where
  -- pow_seeds: use_before and effort by seed
  pub pow_seeds : List (Hash × (Timestamp × ℕ))
  pub headers : Headers
  pub chunks : List (ℕ × DirectoryChunk)
  pub secret_key : Option SigningSecret
  pub directory_id : String
  pub staging : Updates
  pub mirror : Option MirrorState

unfoldable pub insert_pow_seed : PowSeed → ℕ → DirectoryState → DirectoryState
insert_pow_seed seed effort state = record state {
  pow_seeds = insert seed.seed (seed.use_before, effort) state.pow_seeds;
}

unfoldable pub fetch_pow_seed : Hash → DirectoryState → Option (Timestamp × ℕ)
fetch_pow_seed seed state = lookup seed state.pow_seeds

-- DELETE FROM pow_seeds WHERE use_before < now
unfoldable pub purge : Timestamp → List (Hash × (Timestamp × ℕ)) → List (Hash × (Timestamp × ℕ))
purge now [] = []
purge now ((seed, (use_before, effort)) ∷ seeds) =
    let rest = purge now seeds in
    if ltb use_before now then rest else (seed, (use_before, effort)) ∷ rest

unfoldable pub purge_pow_seeds : Timestamp → DirectoryState → DirectoryState
purge_pow_seeds now state = record state { pow_seeds = purge now state.pow_seeds }

-- the row of the greatest height
unfoldable pub load_last_header : DirectoryState → Option (ℕ × DirectoryHeader)
load_last_header state = elim (max_stored_height state.headers) [
  | none ↦ none
  | some height ↦ elim (load_header height state.headers) [
    | none ↦ none
    | some header ↦ some (height, header)
  ]
]

-- Both INSERTs of one transaction; none where a height is taken.
unfoldable pub insert_chunk :
    ℕ → DirectoryHeader → Hash → DirectoryChunk → DirectoryState → Option DirectoryState
insert_chunk height header header_hash chunk state = elim (lookup height state.headers) [
  | some taken ↦ none
  | none ↦ elim (lookup height state.chunks) [
    | some taken ↦ none
    | none ↦ some (record state {
      headers = insert height (header, header_hash) state.headers;
      chunks = insert height chunk state.chunks;
    })
  ]
]

-- the headers from a height on, as many rows as there are in so many heights
unfoldable pub headers_from : ℕ → ℕ → Headers → List DirectoryHeader
headers_from zero first headers = []
headers_from (suc count) first headers =
    let rest = headers_from count (first + 1) headers in
    elim (load_header first headers) [ none ↦ rest | some header ↦ header ∷ rest ]

unfoldable pub load_headers : ℕ → ℕ → DirectoryState → List DirectoryHeader
load_headers first last state = headers_from (last + 1 - first) first state.headers

unfoldable pub load_chunk : ℕ → DirectoryState → Option DirectoryChunk
load_chunk height state = lookup height state.chunks
