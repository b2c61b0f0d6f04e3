-- ===== src/Commands.antt =====
-- src/main.rs: the handlers of the commands, between the parsed arguments and what they print. A
-- handler returns the value that its output is made of. Its time is read anew by each of its steps;
-- here it is one.
pub mod Objects
pub mod Queries
pub mod Peers
pub mod Anchors
use respawn.Base.{
  ℕ, zero, suc, ◌+◌, Bytes, text, Bool, true, false, not, Option, none, some, List, [], ◌∷◌, ◌++◌,
  contains, length, ltb, ◌==◌, list_eq, nat_eq, if◌then◌else◌,
}
use respawn.Base.Dict.{keys, lookup, erase}
use respawn.Errors
use respawn.Errors.{Result, ok, err, corrupt, refuse_if}
use respawn.Exec.{Exec, pure, raise, reads, lift, modify, ◌>>=◌, ◌>>◌}
use respawn.Paths.{Component}
use respawn.Crates.{Crates, hash_hex, parse_hash, is_hash_name, short}
use respawn.Store.{Fabric, Zstd, try_lock, set_head, get_object}
use respawn.Audit.{Json, decimal, VerifyReport}
use respawn.Audit
use respawn.Manifest.{Manifest, ManifestJson, FileEntry, load}
use respawn.Purge.{TombstoneJson}
use respawn.Tree.{Node, file, symlink, dir, Tree, World}
use respawn.Snapshot.{WalkEntry, create_from_actor}
use respawn.Revert.{RevertReport, resolve_dest}
use respawn.Undo.{check_then_apply}
use respawn.Surgery.{surgical_manifest}
use respawn.History.{resolve}
use respawn.Signing.{Ed25519}
use respawn.Anchor.{AnchorJson}
use respawn.Anchor
use respawn.Fleet.{log_event, in_fabric}
use respawn.Fleet
use respawn.Fleet.Mint.{OrderWriter}
use respawn.Fleet.Mint
use respawn.Erase.{CertWriter, PurgeReport}
use respawn.Erase

-- `verify --objects`: the loop over the files of the store, by the names they make up.
module _ (c : Crates) (z : Zstd) where
  abbrev pub count_object : Result Bytes → ℕ × ℕ → ℕ × ℕ
  count_object (ok content) (checked, bad) = (suc checked, bad)
  count_object (err e) (checked, bad) = (checked, suc bad)

  unfoldable pub check_objects : List Bytes → Fabric → Result (ℕ × ℕ)
  check_objects [] s = ok (0, 0)
  check_objects (full ∷ names) s = elim (is_hash_name full) [
    | false ↦ check_objects names s
    | true ↦ Errors.◌>>=◌ (parse_hash c full) λ h.
        Errors.◌>>=◌ (check_objects names s) λ counts. ok (count_object (get_object c z h s) counts)
  ]

  abbrev pub verify_objects : Bool → Fabric → Result (ℕ × ℕ)
  verify_objects false s = ok (0, 0)
  verify_objects true s = Errors.◌>>=◌ (check_objects (keys s.objects) s) λ counts.
      Errors.◌>>◌ (refuse_if (ltb 0 counts.1) (corrupt "object verification failed")) (ok counts)

  -- `Cmd::Verify`
  unfoldable pub cmd_verify : Json → Bool → Fabric → Result (VerifyReport × (ℕ × ℕ))
  unfolding check_objects
  cmd_verify a objects s = Errors.◌>>=◌ (Audit.verify c a s.audit_log) λ r.
      Errors.◌>>=◌ (verify_objects objects s) λ counts.
        Errors.◌>>◌ (refuse_if (not r.valid) (corrupt "audit chain invalid")) (ok (r, counts))

abbrev pub or_else : Option Bytes → Option Bytes → Option Bytes
or_else none other = other
or_else (some s) other = some s

-- `Cmd::Snap` without a frozen view.
unfoldable pub cmd_snap :
    Crates
    → Zstd
    → (Bytes → List Bytes)
    → ManifestJson
    → TombstoneJson
    → Json
    → ℕ
    → Bytes
    → Option Bytes
    → Option Bytes
    → Option Bytes
    → List (Option WalkEntry)
    → Exec Fabric Bytes
cmd_snap c z cut j t a now message actor env ignore entries = do
  reads try_lock
  id ← create_from_actor c z cut j t now ignore message (or_else actor env) entries
  log_event c a now (text "snap") (hash_hex c id)
  pure id

module _ (c : Crates) (z : Zstd) (j : ManifestJson) (t : TombstoneJson) (a : Json) where
  -- The drift is shown, and nothing was written, where the revert is refused.
  abbrev pub unless_refused : Option RevertReport → Result RevertReport
  unless_refused none = err (corrupt "revert refused")
  unless_refused (some r) = ok r

  -- `Cmd::Revert` of a snapshot.
  unfoldable pub cmd_revert : ℕ → Bytes → Bool → Bool → Exec World (Bytes × RevertReport)
  cmd_revert now reference keep_extra force = do
    reads (λ w. try_lock w.fabric)
    id ← reads (λ w. resolve c reference w.fabric)
    m ← reads (λ w. load c j id w.fabric)
    applied ← check_then_apply c z j t now m keep_extra force
    r ← lift (unless_refused applied.1)
    modify (λ w. record w { fabric = set_head c (some id) w.fabric })
    in_fabric (
        log_event c a now (text "revert") (
          short c id
          ++ text " restored "
          ++ decimal (length r.restored)
          ++ text " removed "
          ++ decimal (length r.removed)))
    pure (id, r)

  abbrev pub is_removable_node : Option Node → Bool
  is_removable_node (some (file content stat)) = true
  is_removable_node (some (symlink target)) = true
  is_removable_node _ = false

  -- The loop over the touched paths that are not in the virtual manifest.
  unfoldable pub remove_created : List Bytes → List Bytes → Exec World ℕ
  remove_created kept [] w = (ok 0, w)
  remove_created kept (p ∷ touched) w =
      let rest = remove_created kept touched in
      if contains kept p then rest w else elim (resolve_dest w.tree p) [
        | err e ↦ (err e, w)
        | ok names ↦
            if is_removable_node (lookup names w.tree)
            then (do n ← rest; pure (suc n)) (record w { tree = erase names w.tree })
            else rest w
      ]

  abbrev pub paths : List FileEntry → List Bytes
  paths [] = []
  paths (fe ∷ fes) = fe.path ∷ paths fes

  -- `Cmd::Revert` of what an actor did; `entries` is what a walk of the worktree then finds.
  unfoldable pub cmd_revert_actor :
      (Bytes → List Bytes)
      → ℕ
      → Bytes
      → Bool
      → (Tree → Option Bytes)
      → (Tree → List (Option WalkEntry))
      → Exec World (Bytes × (RevertReport × ℕ))
  unfolding remove_created
  cmd_revert_actor cut now actor force ignore entries = do
    reads (λ w. try_lock w.fabric)
    undone ← reads (λ w. surgical_manifest c j actor w.fabric)
    applied ← check_then_apply c z j t now undone.0 true force
    r ← lift (unless_refused applied.1)
    removed ← remove_created (paths undone.0.files) undone.1
    nid ← λ w.
        in_fabric
          (create_from_actor c z cut j t now (ignore w.tree)
            (text "surgical undo of actor '" ++ actor ++ text "'") none (entries w.tree))
          w
    in_fabric (
        log_event c a now (text "revert-actor")
          (actor ++ text " " ++ decimal (length undone.1) ++ text " paths"))
    pure (nid, (r, removed))

  -- `Cmd::Purge` of a path.
  unfoldable pub cmd_purge : Ed25519 → CertWriter → ℕ → Bytes → Bytes → Exec World PurgeReport
  cmd_purge d o now fresh path = do
    reads (λ w. try_lock w.fabric)
    Erase.run c j t d a o now fresh path

module _ (c : Crates) (a : Json) (d : Ed25519) where
  -- `FleetCmd::Trust` and `FleetCmd::Order`
  unfoldable pub cmd_trust : ℕ → Bytes → Exec Fabric (Unit {0})
  cmd_trust now pubkey = do reads try_lock; Fleet.trust c a now pubkey

  unfoldable pub cmd_order : OrderWriter → ℕ → ℕ → Bytes → Bytes → Bytes → Exec Fabric Bytes
  cmd_order o now pid fresh target out = do
    reads try_lock
    content ← Mint.order c d o now pid fresh target
    log_event c a now (text "fleet-order") out
    pure content

  -- `AnchorCmd::Keygen` and `AnchorCmd::Create`
  unfoldable pub cmd_keygen : ℕ → Bytes → Bytes → Exec Fabric Bytes
  cmd_keygen now raw fresh = do
    reads try_lock
    pk ← Anchor.keygen c d raw fresh
    log_event c a now (text "anchor-keygen") pk
    pure pk

  unfoldable pub cmd_anchor :
      AnchorJson → List Component → List Component → ℕ → Bytes → Bytes → Exec Fabric (Bytes × ℕ)
  cmd_anchor f place fabric now fresh shown = do
    reads try_lock
    out ← Anchor.create c d a f place fabric now fresh
    log_event c a now (text "anchor") shown
    pure out
