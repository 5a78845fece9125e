-- ===== src/Lib.antt =====
-- Nullspace: a verification library.
--
-- Nullspace is a messenger. A directory keeps, for each name, a history of signed updates, under a
-- chain of headers. Servers hold the mailboxes, devices, profiles and file fragments of the users
-- that the directory places on them. Clients hold a user's devices, which certify each other, and the
-- groups that the user is in.
--
-- Parts, and the files that model them. Paths of the source are from the repository's root.
-- Prelude and its children: the names that all modules share, tests on numbers and texts, lists,
--   association lists for tables and `BTreeMap`s, and `Result` with `?` as bind.
-- Structs: libraries/nullspace-structs/src (certificate.rs, directory.rs, server.rs, fragment.rs,
--   profile.rs). A struct is a record and an enum a data type, with the names of the source. A hash,
--   a key, a signature or a token is a number, and a timestamp is the number of its 64 bits.
-- Env: BLAKE3, Ed25519 and BCS, which are packages, as a parameter. Crypto: hash.rs and signing.rs
--   of libraries/nullspace-crypt/src. `SignsCorrectly` is what is assumed of Ed25519; where two values
--   must not share a hash, the theorem says that they are equal or that a collision is at hand.
-- Certificate: `CertificateChain::verify` with its three loops, `self_signed` and
--   `issue_certificate`. Certificate/Relation states authenticity by rules.
-- Client/Bundle: `new_device_bundle` of libraries/nullspace-client/src/internal.rs.
-- Directory/History: `verify_history` of directory.rs, with its rules in
--   Directory/History/Rightful, and of libraries/nullspace-dirclient/src/lib.rs the listing and the
--   hash that the next update builds on.
-- Directory/Headers: libraries/nullspace-dirclient/src/header_sync.rs.
-- Directory/Merkle: the sparse Merkle tree (novasmt) as a record of operations, with what is assumed
--   of it. Directory/Pow: pow.rs of binaries/nullspace-directory/src and of the client.
--   Directory/State: state.rs and db.rs of the server. Directory/Serve: server.rs, with the commits in
--   its children. Directory/Mirror: mirror.rs. Directory/Client: lib.rs of the client.
-- E2ee: e2ee.rs, the messages of group.rs and event.rs of libraries/nullspace-structs/src. The ciphers
--   are a parameter, `Ciphers`, and `IsSound` is what is assumed of them.
-- Server/Database: the tables of binaries/nullspace-server/migrations and the meaning of the
--   statements that the handlers run. Server/Mailbox: mailbox.rs. Server/PubSub: mailbox/pubsub.rs,
--   with the waiters and what the cache drops as steps. Server/Device: device.rs. Server/Profile:
--   profile.rs. Server/Fragments: fragment.rs. A handler takes the database and returns the new
--   one, or the error, on which its transaction is dropped.
-- Client/Roster: libraries/nullspace-client/src/convo/roster.rs. Client/Roster/Rules states the
--   rules of docs/protocol/groups.md, and Client/Roster/Prescribed where the code departs from them.
-- Client/Retry: libraries/nullspace-client/src/retry.rs. Client/LongPoll: long_poll.rs beside it.
-- Client/Receive: convo/dm_recv.rs there, with what it uses of database.rs and attachments.rs.
-- Client/Recipients: `collect_recipients` of convo/send.rs and convo/rekey.rs there.
-- Tests: an environment that can be evaluated, runs at concrete inputs, and instances of theorems.
--
-- How they interact: `device_auth` verifies a chain against the root that the directory gives, and
-- opens the mailbox of the user; an upload is made with a token of a device; a profile is signed by a
-- device on record. The theorems of Server/Device use those of Server/Mailbox/Outcomes. The server of
-- the directory collects signed updates, each checked by `verify_history`, and commits them under a new
-- header; mirrors replay its chunks, and clients follow its headers and check its answers against them.
-- The steps of the server are kept apart where it gives up its lock, so that they can interleave.
--
-- Bounds. The clock, random values, answers of other machines and the order in which the racing
-- loops of `mailbox_multirecv` run are arguments. The second loop of `verify` runs on the number of
-- pending entries and one, since each turn but the last removes one. The loop of `sync_headers`
-- runs on the number of heights that are left, and each turn passes one at least; so does the loop
-- of the mirror. The search of the proof of work has as many nonces as its fuel, and ends at the
-- first that has a solution, if there is one. `retry_backoff` runs on eight calls, and the janitor
-- of the fragments on the number of rows and one. Times of the database are compared as 64-bit
-- integers, as SQLite does, and additions saturate where the source's do.
--
-- Not modelled: failures of the disk and of SQLite other than broken constraints; decoding of
-- columns that the same program wrote; what the cache of anchors of the directory's client forgets;
-- a janitor that runs in the middle of an upload; sending, and receiving and rekeying in groups,
-- around the messages of the client, and its medium-term keys; attachments; the proxy of the
-- server; user interfaces, command lines and connection pools.
pub mod Prelude
pub mod Structs
pub mod Env
pub mod Crypto
pub mod Certificate
pub mod Client
pub mod Directory
pub mod E2ee
pub mod Server
pub mod Tests
