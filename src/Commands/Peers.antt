-- ===== src/Commands/Peers.antt =====
-- src/main.rs: the commands that reach a peer or run a command.
use respawn.Base.{
  ℕ, Bytes, text, Bool, Option, none, some, List, [], ◌∷◌, ◌++◌, ◌==◌, ◌||◌, nat_eq, list_eq,
  if◌then◌else◌,
}
use respawn.Exec.{Exec, pure, reads, ◌>>=◌, ◌>>◌}
use respawn.Crates.{Crates, short}
use respawn.Store.{Zstd, try_lock}
use respawn.Audit.{Json, decimal}
use respawn.Manifest.{ManifestJson}
use respawn.Purge.{TombstoneJson}
use respawn.Tree.{World}
use respawn.Snapshot.{WalkEntry}
use respawn.Signing.{Ed25519}
use respawn.Sync.{Session, Peer, PullReport, pull, on_fabric}
use respawn.Fleet
use respawn.Fleet.{OrderJson, log_event}
use respawn.Guard
use respawn.Guard.{RevertPolicy, Command, GuardReport, process_exit_code}

abbrev before_colon : Bytes → Bytes
before_colon [] = []
before_colon (b ∷ s) = let rest = before_colon s in if b == b':' then [] else b ∷ rest

-- Whether a plaintext server gets no warning.
unfoldable pub is_loopback : Bytes → Bool
is_loopback addr =
    let h = before_colon addr in
    h == text "127.0.0.1" || h == text "localhost" || h == text "::1" || h == text "[::1]"

module _ (c : Crates) (z : Zstd) (j : ManifestJson) (a : Json) where
  abbrev log_pull : ℕ → Bytes → PullReport → Option Bytes → Exec Session (Unit {0})
  log_pull now addr r none = pure tt
  log_pull now addr r (some h) = on_fabric (
      log_event c a now (text "pull")
        (addr ++ text " head " ++ short c h ++ text " objects " ++ decimal r.objects_fetched))

  -- `Cmd::Pull`
  unfoldable pub cmd_pull : Peer → ℕ → Bytes → Exec Session PullReport
  cmd_pull peer now addr = do
    reads (λ s. try_lock s.fabric)
    r ← pull c z j peer addr
    log_pull now addr r r.remote_head
    pure r

  module _ (t : TombstoneJson) where
    -- `FleetCmd::Apply`
    unfoldable pub cmd_apply :
        Ed25519 → OrderJson → ℕ → Bytes → Bytes → Option (Bytes × Peer) → Bool → Exec World Bytes
    cmd_apply d o now fresh order from force = do
      reads (λ w. try_lock w.fabric)
      Fleet.apply c z j t a d o now fresh order from force

    -- `Cmd::Guard`: the report and the exit code of the program.
    unfoldable pub cmd_guard :
        (Bytes → List Bytes)
        → ℕ
        → List Bytes
        → RevertPolicy
        → Bool
        → Option Bytes
        → Option Bytes
        → List (Option WalkEntry)
        → Command
        → Exec World (GuardReport × ℕ)
    cmd_guard cut now argv policy full ignore actor entries command = do
      report ← Guard.run c z cut j t a now argv policy full ignore actor entries command
      pure (report, process_exit_code report)
