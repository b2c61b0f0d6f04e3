-- ===== src/Commands/Queries.antt =====
-- src/main.rs: the commands that show what the fabric and the worktree hold.
use respawn.Base.{ℕ, Bytes, Bool, some, List, map, take, ◌==◌, option_eq, list_eq, nat_eq}
use respawn.Errors.{Result, ok, ◌>>=◌}
use respawn.Crates.{Crates}
use respawn.Store.{Fabric, head}
use respawn.Manifest.{Manifest, ManifestJson, load}
use respawn.Tree.{World}
use respawn.Drift.{DriftReport, detect, diff_manifests}
use respawn.History.{resolve}
use respawn.Listing.{Entry, list}

module _ (c : Crates) (j : ManifestJson) where
  -- `Cmd::Log`: the newest `n` snapshots, each with whether it is HEAD.
  unfoldable pub cmd_log : ℕ → Fabric → Result (List (Entry × Bool))
  cmd_log n s = do cur ← head c s; es ← list c j s; ok (map (λ e. (e, some e.0 == cur)) (take n es))

  -- `Cmd::Show`
  unfoldable pub cmd_show : Bytes → Fabric → Result (Bytes × Manifest)
  cmd_show reference s = do id ← resolve c reference s; m ← load c j id s; ok (id, m)

  -- `Cmd::Status`
  unfoldable pub cmd_status : (Bytes → Bool) → Bytes → Bool → World → Result (Bytes × DriftReport)
  unfolding cmd_show
  cmd_status is_utf8 reference full w = do
    shown ← cmd_show reference w.fabric
    ok (shown.0, detect c is_utf8 w.tree shown.1 full)

  -- `Cmd::Diff`
  unfoldable pub cmd_diff : Bytes → Bytes → Fabric → Result (List Bytes × (List Bytes × List Bytes))
  unfolding cmd_show
  cmd_diff old new s = do
    a ← cmd_show old s
    b ← cmd_show new s
    let d = diff_manifests b.1 a.1 in ok (d.added, (d.modified, d.deleted))
