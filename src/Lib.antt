-- ===== src/Lib.antt =====
-- respawn keeps snapshots of a directory tree in a fabric, the directory `.respawn/` at its root,
-- and brings the tree back to any of them. This library models the program of src/*.rs.
--
-- The parts, and the files that model them:
--   Base                 numbers, lists, dictionaries, sorting, equality, texts as bytes
--   Errors, Exec         src/lib.rs: the error type; code that fails, and code that writes and fails
--   Exec.Within          what code keeps, put together from what its steps keep
--   Paths                src/lib.rs: sanitize_rel; src/anchor.rs: normalize; excluded paths
--   Crates               src/lib.rs: hashes and their names; the crates blake3 and hex
--   Lines                reading files line by line, and trim
--   Audit                src/audit.rs: record, verify, tip, tip_is_prefix
--   Store                src/store.rs: objects, manifests and HEAD
--   Manifest             src/snapshot.rs: the manifest, its bytes and its checks
--   Purge, Certificate   src/purge.rs: the tombstones; verify_cert
--   Erase                src/purge.rs: run
--   Tree                 the worktree
--   Snapshot             src/snapshot.rs: create_from_actor and what it calls
--   Drift                src/drift.rs: detect; src/snapshot.rs: diff_manifests
--   Revert, Undo         src/revert.rs: resolve_dest, apply; check_then_apply
--   Surgery              src/revert.rs: surgical_manifest
--   Guard                src/guard.rs; src/snapshot.rs: env_actor
--   Signing              src/keychain.rs: the key file; ed25519
--   Anchor, Anchor.Next  src/anchor.rs: create, verify, verify_link; next
--   Sync                 src/sync.rs: frames, respond_frame, pull
--   Transport            src/secure.rs: messages; its child modules the frames and the handshake
--   Serve                src/sync.rs: serve_conn
--   Fleet, Fleet.Mint    src/fleet.rs: trust, apply; order
--   History, Listing     src/snapshot.rs: resolve; list
--   Calendar             src/main.rs: chrono_ts
--   Commands             src/main.rs: the handlers of the commands, is_loopback
--   Quoting              src/admin.rs: admin_script; src/schedule.rs: plist_xml
-- The child modules hold the theorems; Tests holds runs and the theorems at concrete inputs.
--
-- How they interact: the fabric is one record (Store.Fabric), which the log, the snapshots, the
-- anchors, pulls and orders read and write; the worktree and the fabric make a World. A function
-- that reads returns a Result. One that writes returns its result beside the state it leaves, so
-- that what stands written after an error is part of the model. Snapshots put objects into the
-- fabric, reverts read them, a pull adds them from a peer, and an order pulls and reverts.
-- A purge takes objects away, a guard makes a snapshot, runs a command and reverts, and a server
-- answers from the fabric over a connection, which is two streams of bytes (Transport.Wire).
--
-- Third-party code is a parameter: blake3, hex, zstd, fastcdc, serde_json at each type, ed25519,
-- Noise, UTF-8 tests and the parsing of numbers; so is the command that a guard runs. What is
-- assumed of it is a record IsLawful, or IsReadBack for a writer with its reader, which the tests
-- show to be possible. BLAKE3 may collide: where a theorem needs that it does not, its result is
-- the property, or two texts with one hash among those at hand, which the theorem names.
--
-- Bounds: u64 counters of the log wrap as they do in a release build. The loops of pull and of a
-- surgical undo over the chain of manifests recurse on what the caps of the source leave, and the
-- retries of a capture on their number. The walk of list has fuel for one round more than there
-- are manifests, the reading of a frame for its length, each round taking at least one byte, and
-- the loop of a server for the number of bytes that are to come, each request taking some; every
-- other loop is structural, so that all functions return.
--
-- Simplified: a file system operation fails only where the state of the model makes it fail; a
-- write through a temporary file is one write; entries that a walk cannot read are left out; white
-- space is ASCII white space; the texts of messages leave out the values put into them; the path
-- of a file is the list of its names, in bytes that are taken to be UTF-8. The worktree leaves out
-- `.respawn`, so that theorems on reverts are for manifests without paths into it. A purge is for
-- a path without a symbolic link on it. The files of certificates and of minted orders are results.
-- A connection delivers all that the peer sends and then ends; time limits are left out.
--
-- Not modelled: sockets, threads and beacons, the macOS Keychain, APFS snapshots, and the running
-- of launchctl and osascript, which are calls of the system; the watcher, a loop over the events of
-- a crate; the checks of a schedule before it is installed; the parsing of the command line, what
-- the commands print, and those commands that only hand over to the parts named here.
pub mod Base
pub mod Errors
pub mod Paths
pub mod Crates
pub mod Lines
pub mod Audit
pub mod Exec
pub mod Store
pub mod Manifest
pub mod Purge
pub mod Tree
pub mod Revert
pub mod Snapshot
pub mod Drift
pub mod Signing
pub mod Anchor
pub mod Sync
pub mod Transport
pub mod Serve
pub mod Calendar
pub mod Quoting
pub mod Listing
pub mod Erase
pub mod Surgery
pub mod Guard
pub mod Commands
pub mod Undo
pub mod Fleet
pub mod Certificate
pub mod History
mod Tests
