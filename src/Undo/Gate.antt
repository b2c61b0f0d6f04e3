-- ===== src/Undo/Gate.antt =====
-- What the gate of `check_then_apply` lets through.
use respawn.Base.{
  ℕ, Bytes, Bool, true, false, some, [], list_eq, nat_eq, ◌≡◌, ap, ◌∙◌, inl, inr, arith, Bool-cases,
}
use respawn.Base.Dict.{lookup}
use respawn.Errors.{ok, Result-cases}
use respawn.Paths.{rel_str}
use respawn.Crates.{Crates}
use respawn.Store.{Zstd, head}
use respawn.Manifest.{FileEntry, Manifest, ManifestJson, load}
use respawn.Purge.{TombstoneJson}
use respawn.Tree.{Stat, Names, World, file}
use respawn.Snapshot.{ignore_patterns}
use respawn.Drift.{DriftReport, by_path, detect, is_tracked, ignore_file}
use respawn.Drift.Full.{detect_full}
use respawn.Revert.{RevertReport}
use respawn.Undo.{head_drift, is_dirty, check_then_apply}

is_dirty-clean : (r : DriftReport) → is_dirty r ≡ false → (r.added ≡ []) × (r.modified ≡ [])
unfolding is_dirty
is_dirty-clean r h = (ground arith, ground arith)

module _ (c : Crates) (z : Zstd) (j : ManifestJson) (t : TombstoneJson) where
  gate-clean :
      (now : ℕ) (m : Manifest) (keep_extra : Bool) (w : World) (report : DriftReport)
      (r : RevertReport)
      → (check_then_apply c z j t now m keep_extra false w).0 ≡ ok (report, some r)
      → (found : DriftReport) × (head_drift c j t.is_utf8 w ≡ ok found) × (is_dirty found ≡ false)
  unfolding check_then_apply
  gate-clean now m keep_extra w report r h = elim (Result-cases (head_drift c j t.is_utf8 w)) [
    | inr (e, p) ↦ absurd (cc (rw p at h))
    | inl (found, p) ↦ elim (Bool-cases (is_dirty found)) [
      | inl dirty ↦ absurd (ground (arith, (rw (p, dirty) at h)))
      | inr good ↦ (found, p, good)
    ]
  ]

  -- Where `check_then_apply` rewrites the worktree without being forced, every tracked file of the
  -- worktree had the content, by its hash, that the manifest of HEAD holds at its path.
  pub check_then_apply-saved :
      (now : ℕ) (m : Manifest) (keep_extra : Bool) (w : World) (report : DriftReport)
      (r : RevertReport) (id : Bytes) (cur : Manifest) (names : Names) (content : Bytes)
      (stat : Stat)
      → head c w.fabric ≡ ok (some id)
      → load c j id w.fabric ≡ ok cur
      → (check_then_apply c z j t now m keep_extra false w).0 ≡ ok (report, some r)
      → lookup names w.tree ≡ some (file content stat)
      → is_tracked (ignore_patterns t.is_utf8 (ignore_file w.tree)) names (file content stat) ≡ true
      → (fe : FileEntry) × (lookup (rel_str names) (by_path cur.files) ≡ some fe)
        × (c.blake3 content ≡ fe.content)
  unfolding head_drift
  check_then_apply-saved now m keep_extra w report r id cur names content stat at_head loaded h
        there tracked =
      let (found, p, good) = gate-clean now m keep_extra w report r h in
      let same : detect c t.is_utf8 w.tree cur true ≡ found =
        ground (arith, (rw (head_drift, at_head, loaded) at p)) in
      let (added, modified) = is_dirty-clean found good in
      detect_full c t.is_utf8 w.tree cur names content stat (ap (λ k. k.added) same ∙ added)
        (ap (λ k. k.modified) same ∙ modified) there tracked
