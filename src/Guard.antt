-- ===== src/Guard.antt =====
-- src/guard.rs: a command between a snapshot and, by the policy, the way back. The command is a
-- parameter: what it makes of the world and how it ends, or `none` where it cannot be started.
pub mod Undone
use respawn.Base.{
  ℕ, zero, suc, ◌+◌, Bytes, text, Bool, true, false, not, Option, none, some, List, [], ◌∷◌, ◌++◌,
  length, ◌==◌, list_eq, nat_eq, option_eq, if◌then◌else◌,
}
use respawn.Errors.{Result, ok, err, corrupt, io, refuse_if}
use respawn.Exec.{Exec, pure, raise, reads, lift, modify, ◌>>=◌, ◌>>◌}
use respawn.Lines.{is_blank}
use respawn.Crates.{Crates}
use respawn.Store.{Fabric, Zstd, try_lock, head, set_head}
use respawn.Audit.{Json, decimal}
use respawn.Manifest.{Manifest, ManifestJson, load}
use respawn.Purge.{TombstoneJson}
use respawn.Tree.{World}
use respawn.Snapshot.{WalkEntry, create_from_actor}
use respawn.Drift.{DriftReport, detect}
use respawn.Revert.{RevertReport, apply}
use respawn.Fleet.{in_fabric, log_event}

pub data RevertPolicy : Type 0 where
  never : RevertPolicy
  on_fail : RevertPolicy
  always : RevertPolicy

-- The exit status of a process on Unix: an exit code or a signal.
pub record ExitStatus : Type 0 where
  pub code : Option ℕ
  pub signal : Option ℕ

abbrev pub Command : Type 0
Command = World → Option (ExitStatus × World)

pub record GuardReport : Type 0 where
  pub snapshot : Bytes
  pub exit_code : Option ℕ
  pub signal : Option ℕ
  pub drift : DriftReport
  pub reverted : Bool

abbrev pub exit_of : Option ℕ → Option ℕ → ℕ
exit_of (some code) signal = code
exit_of none (some signal) = 128 + signal
exit_of none none = 1

-- `GuardReport::process_exit_code`
unfoldable pub process_exit_code : GuardReport → ℕ
process_exit_code r = exit_of r.exit_code r.signal

-- `ExitStatus::success`
abbrev pub success : ExitStatus → Bool
success s = s.code == some 0

abbrev pub should_revert : RevertPolicy → Bool → Bool
should_revert always failed = true
should_revert on_fail failed = failed
should_revert never failed = false

-- `argv.join(" ")`
abbrev pub join_words : List Bytes → Bytes
join_words [] = []
join_words (w ∷ []) = w
join_words (w ∷ v ∷ ws) = w ++ text " " ++ join_words (v ∷ ws)

abbrev pub code_text : Option ℕ → Bytes
code_text none = text "-1"
code_text (some n) = decimal n

unfoldable pub guard_detail : Bytes → ExitStatus → DriftReport → Bool → Bytes
guard_detail shown status d reverted =
    shown
    ++ text " exit "
    ++ code_text status.code
    ++ text " drift +"
    ++ decimal (length d.added)
    ++ text " ~"
    ++ decimal (length d.modified)
    ++ text " -"
    ++ decimal (length d.deleted)
    ++ (if reverted then text " reverted" else [])

-- `env_actor`, of the value of the environment variable.
unfoldable pub env_actor : Option Bytes → Option Bytes
env_actor none = none
env_actor (some s) = if is_blank s then none else some s

module _ (c : Crates) (z : Zstd) (cut : Bytes → List Bytes) (j : ManifestJson) (t : TombstoneJson)
    (a : Json) where
  -- `apply` and the HEAD that goes with it, where the policy calls for them.
  unfoldable pub revert_if : Bool → ℕ → Bytes → Manifest → Exec World Bool
  revert_if false now snap m = pure false
  revert_if true now snap m = do
    reverted ← apply c z t now false m
    modify (λ w. record w { fabric = set_head c (some snap) w.fabric })
    pure true

  -- What follows a command that ran.
  unfoldable pub after_command :
      ℕ → RevertPolicy → Bool → Bytes → Bytes → ExitStatus → Exec World GuardReport
  unfolding revert_if guard_detail
  after_command now policy full_drift shown snap status = do
    m ← reads (λ w. load c j snap w.fabric)
    report ← reads (λ w. ok (detect c t.is_utf8 w.tree m full_drift))
    reverted ← revert_if (should_revert policy (not (success status))) now snap m
    in_fabric (log_event c a now (text "guard") (guard_detail shown status report reverted))
    pure (record {
      snapshot = snap;
      exit_code = status.code;
      signal = status.signal;
      drift = report;
      reverted = reverted;
    })

  -- The command, and HEAD as it was where the command cannot be started.
  unfoldable pub run_command :
      ℕ → RevertPolicy → Bool → Bytes → Option Bytes → Bytes → Command → Exec World GuardReport
  unfolding after_command
  run_command now policy full_drift shown prev_head snap command w = elim (command w) [
    | none ↦ (err (io "spawn"), record w { fabric = set_head c prev_head w.fabric })
    | some (status, v) ↦ after_command now policy full_drift shown snap status v
  ]

  -- `ignore` and `entries` are what `snapshot::create` finds in the worktree, and `actor` the value
  -- of the variable RESPAWN_ACTOR.
  unfoldable pub run :
      ℕ
      → List Bytes
      → RevertPolicy
      → Bool
      → Option Bytes
      → Option Bytes
      → List (Option WalkEntry)
      → Command
      → Exec World GuardReport
  unfolding run_command env_actor
  run now argv policy full_drift ignore actor entries command = do
    lift (refuse_if (argv == []) (corrupt "guard requires a command"))
    reads (λ w. try_lock w.fabric)
    prev_head ← reads (λ w. head c w.fabric)
    snap ← in_fabric (
        create_from_actor c z cut j t now ignore (text "guard: " ++ join_words argv)
          (env_actor actor) entries)
    run_command now policy full_drift (join_words argv) prev_head snap command
