-- ===== src/Undo.antt =====
-- src/revert.rs: `check_then_apply`, which refuses to destroy work that no snapshot holds.
pub mod Gate
use respawn.Base.{
  ℕ, Bytes, Bool, true, false, not, ◌&&◌, ◌||◌, Option, none, some, List, [], ◌∷◌, ◌==◌, list_eq,
  nat_eq, if◌then◌else◌, ◌≡◌,
}
use respawn.Errors.{Result, ok, err}
use respawn.Exec.{Exec, pure, reads, lift, modify, ◌>>=◌, ◌>>◌}
use respawn.Crates.{Crates}
use respawn.Store.{Fabric, Zstd, head}
use respawn.Manifest.{Manifest, ManifestJson, manifest_version, load}
use respawn.Purge.{TombstoneJson}
use respawn.Tree.{World}
use respawn.Drift.{DriftReport, detect}
use respawn.Revert.{RevertReport, apply}

abbrev pub no_snapshot : Manifest
no_snapshot = record {
  version = manifest_version;
  parent = none;
  timestamp_secs = 0;
  message = [];
  files = [];
  unstable = [];
  actor = none;
}

-- The drift from HEAD; without a HEAD every file is added.
unfoldable pub head_drift : Crates → ManifestJson → (Bytes → Bool) → World → Result DriftReport
head_drift c j is_utf8 w = elim (head c w.fabric) [
  | err e ↦ err e
  | ok none ↦ ok (detect c is_utf8 w.tree no_snapshot false)
  | ok (some h) ↦ elim (load c j h w.fabric) [
    | err e ↦ err e
    | ok cur ↦ ok (detect c is_utf8 w.tree cur true)
  ]
]

unfoldable pub is_dirty : DriftReport → Bool
is_dirty r = not (r.added == []) || not (r.modified == []) || not (r.deleted == [])

module _ (c : Crates) (z : Zstd) (j : ManifestJson) (t : TombstoneJson) where
  unfoldable pub check_then_apply :
      ℕ → Manifest → Bool → Bool → Exec World (DriftReport × Option RevertReport)
  unfolding head_drift is_dirty
  check_then_apply now m keep_extra force = do
    report ← reads (head_drift c j t.is_utf8)
    if is_dirty report && not force
        then pure (report, none)
        else do r ← apply c z t now keep_extra m; pure (report, some r)
