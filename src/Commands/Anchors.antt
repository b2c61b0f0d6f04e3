-- ===== src/Commands/Anchors.antt =====
-- src/main.rs: `anchor next` and `anchor verify`.
use respawn.Base.{ℕ, Bytes, text, Option, none, some, List}
use respawn.Errors.{Result, ok, err, corrupt}
use respawn.Exec.{Exec, pure, reads, lift, ◌>>=◌, ◌>>◌}
use respawn.Paths.{Component}
use respawn.Crates.{Crates}
use respawn.Store.{Fabric, try_lock}
use respawn.Audit.{Json}
use respawn.Signing.{Ed25519}
use respawn.Anchor.{AnchorJson, VerifyOutcome, fabric_id, verify, verify_link}
use respawn.Anchor.Next.{default_anchor_dir, next}
use respawn.Fleet.{log_event}

module _ (c : Crates) (d : Ed25519) (j : Json) (a : AnchorJson) where
  abbrev chosen_dir :
      Option (List Component) → Option (List Component) → Bytes → Exec Fabric (List Component)
  chosen_dir home (some dir) fresh = pure dir
  chosen_dir home none fresh = do id ← fabric_id fresh; lift (default_anchor_dir home id)

  -- `AnchorCmd::Next`; `taken` and `path_text` are the names in a directory and the text of a path.
  unfoldable pub cmd_next :
      Option (List Component)
      → Option (List Component)
      → (List Component → List Bytes)
      → (List Component → Bytes → Bytes)
      → ℕ
      → List Component
      → ℕ
      → Bytes
      → Exec Fabric (Bytes × (Bytes × ℕ))
  cmd_next home dir taken path_text millis fabric now fresh = do
    reads try_lock
    place ← chosen_dir home dir fresh
    out ← next c d j a millis (taken place) place fabric now fresh
    log_event c j now (text "anchor") (path_text place out.0)
    pure out

  -- The link that the anchor names, against the file before it that is given.
  unfoldable pub check_prev : Option Bytes → Option Bytes → Bytes → Result (Unit {0})
  check_prev none none content = ok tt
  check_prev (some h) none content = ok tt
  check_prev none (some prev) content = err (corrupt "--prev given but anchor has no chain link")
  check_prev (some h) (some prev) content = verify_link c d j a content prev

  -- `AnchorCmd::Verify`
  unfoldable pub cmd_verify_anchor :
      Bytes → Bytes → Option Bytes → Option Bytes → Exec Fabric VerifyOutcome
  unfolding check_prev
  cmd_verify_anchor fresh content pubkey prev = do
    out ← verify c d j a fresh content pubkey
    lift (check_prev out.prev_anchor prev content)
    pure out
