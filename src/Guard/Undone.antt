-- ===== src/Guard/Undone.antt =====
-- What guard leaves behind.
use respawn.Base.{
  ℕ, Bytes, text, Bool, true, false, not, Option, none, some, List, [], ◌∷◌, ◌++◌, map, All, ◌==◌,
  list_eq, nat_eq, ◌≡◌, ◌≢◌, refl, sym, ap, ◌∙◌, inl, inr, arith,
}
use mathlib.Core.Path.{subst}
use respawn.Base.Dict.{lookup}
use respawn.Errors.{Result, ok, err, io, Result-cases}
use respawn.Crates
use respawn.Crates.{Crates, IsHash}
use respawn.Store.{Fabric, Zstd, try_lock, head, set_head, head_content}
use respawn.Store.Laws.{head-set_head}
use respawn.Audit.{Json, record_event}
use respawn.Manifest.{Manifest, ManifestJson, load}
use respawn.Purge.{TombstoneJson}
use respawn.Tree.{World, Names, Node}
use respawn.Snapshot.{WalkEntry, create_from_actor}
use respawn.Drift.{detect}
use respawn.Revert.{RevertReport, apply, is_extra}
use respawn.Revert.Files.{AreDistinct}
use respawn.Revert.Restore.{IsPlaced}
use respawn.Revert.Exact.{AreOutside, AreCanonical, apply_exact}
use respawn.Fleet.{log_event}
use respawn.Guard.{
  RevertPolicy, ExitStatus, Command, GuardReport, success, should_revert, join_words, guard_detail,
  revert_if, after_command, run_command, run, env_actor,
}

module _ (c : Crates) (z : Zstd) (cut : Bytes → List Bytes) (j : ManifestJson) (t : TombstoneJson)
    (a : Json) (L : Crates.IsLawful c) where
  run_command-none :
      (now : ℕ) (policy : RevertPolicy) (full_drift : Bool) (shown snap : Bytes)
      (prev : Option Bytes) (command : Command) (w : World)
      → command w ≡ none
      → run_command c z cut j t a now policy full_drift shown prev snap command w
        ≡ (err (io "spawn"), record w { fabric = set_head c prev w.fabric })
  unfolding run_command
  run_command-none now policy full_drift shown snap prev command w e = rw (run_command, e) refl

  -- A guard whose command cannot be started returns an error, leaves the worktree alone, and HEAD is
  -- the snapshot that it was before, although the guard had made one of its own. For a guard that
  -- gets the lock and makes its snapshot, and a HEAD of 32 bytes or none. Assumed: the documented
  -- behaviour of the crates.
  pub run-not_started :
      (now : ℕ) (word : Bytes) (words : List Bytes) (policy : RevertPolicy) (full_drift : Bool)
      (ignore actor : Option Bytes) (entries : List (Option WalkEntry)) (command : Command)
      (w : World) (prev : Option Bytes) (snap : Bytes)
      → ((v : World) → command v ≡ none)
      → try_lock w.fabric ≡ ok tt
      → head c w.fabric ≡ ok prev
      → ((h : Bytes) → prev ≡ some h → IsHash h)
      → (create_from_actor c z cut j t now ignore
          (text "guard: " ++ join_words (word ∷ words))
          (env_actor actor)
          entries
          w.fabric).0
        ≡ ok snap
      → ((report : GuardReport)
          → (run c z cut j t a now
              (word ∷ words)
              policy
              full_drift
              ignore
              actor
              entries
              command
              w).0
            ≢ ok report)
        × ((run c z cut j t a now
              (word ∷ words)
              policy
              full_drift
              ignore
              actor
              entries
              command
              w).1.tree
            ≡ w.tree)
        × (head c
              (run c z cut j t a now
                (word ∷ words)
                policy
                full_drift
                ignore
                actor
                entries
                command
                w).1.fabric
            ≡ ok prev)
  unfolding run
  run-not_started now word words policy full_drift ignore actor entries command w prev snap fails
        free here is_hash made =
      let some_words : ((word ∷ words) == []) ≡ false = ground arith in
      let s =
        (create_from_actor c z cut j t now ignore (text "guard: " ++ join_words (word ∷ words))
          (env_actor actor) entries w.fabric).1 in
      let stopped =
        run_command-none now policy full_drift (join_words (word ∷ words)) snap prev command
          (record w { fabric = s }) (fails (record w { fabric = s })) in
      rw (run, some_words, free, here, made, stopped)
        ((λ report e. absurd (cc e)), refl, back prev is_hash s)
    where
      back :
          (o : Option Bytes)
          → ((h : Bytes) → o ≡ some h → IsHash h)
          → (s : Fabric) → head c (set_head c o s) ≡ ok o
      back none i s = (head-set_head c L s).1
      back (some h) i s = (head-set_head c L s).0 h (i h refl)

  revert_if-true :
      (now : ℕ) (snap : Bytes) (m : Manifest) (w v : World) (b : Bool)
      → revert_if c z cut j t a true now snap m w ≡ (ok b, v)
      → (report : RevertReport) × ((apply c z t now false m w).0 ≡ ok report)
        × (b ≡ true)
        × (v.tree ≡ (apply c z t now false m w).1.tree)
        × (v.fabric.head_file ≡ some (head_content c (some snap)))
  unfolding revert_if set_head
  revert_if-true now snap m w v b e = elim (Result-cases (apply c z t now false m w).0) [
    | inr (bad, p) ↦ absurd (cc (rw p at e))
    | inl (report, p) ↦
        let done = (rw p at e) in
        (
          report,
          p,
          cc done,
          sym (ap (λ u. u.1.tree) done),
          sym (ap (λ u. u.1.fabric.head_file) done),
        )
  ]

  abbrev reverted_of : Result GuardReport → Bool
  reverted_of (ok report) = report.reverted
  reverted_of (err e) = false

  -- Where guard reverts, which it does by the policy and the way in which the command ended, the
  -- worktree is that of the snapshot which it made before: every file stands with content of the hash
  -- in the manifest, nothing else is left but what is excluded, and HEAD is this snapshot. For a
  -- manifest whose paths are spelled canonically, lead to different places, and not into `.respawn`,
  -- `.git` or `.DS_Store`.
  pub after_command-exact :
      (now : ℕ) (policy : RevertPolicy) (full_drift : Bool) (shown snap : Bytes)
      (status : ExitStatus) (w v : World) (m : Manifest) (report : GuardReport)
      → after_command c z cut j t a now policy full_drift shown snap status w ≡ (ok report, v)
      → load c j snap w.fabric ≡ ok m
      → AreOutside m.files
      → AreCanonical m.files
      → AreDistinct m.files
      → should_revert policy (not (success status)) ≡ true
      → (report.reverted ≡ true)
        × All (IsPlaced c v.tree) m.files
        × ((names : Names) (node : Node)
            → lookup names v.tree ≡ some node
            → is_extra (map (λ f. f.path) m.files) names node ≡ false)
        × (v.fabric.head_file ≡ some (head_content c (some snap)))
  unfolding after_command log_event
  after_command-exact now policy full_drift shown snap status w v m report e loaded out can distinct
        back =
      let r = revert_if c z cut j t a true now snap m w in
      elim (Result-cases r.0) [
        | inr (bad, p) ↦ absurd (cc (rw (loaded, back, p) at e))
        | inl (b, p) ↦
            let (applied, done, reverted, tree, at_snap) =
              revert_if-true now snap m w r.1 b (ap (λ x. (x, r.1)) p) in
            let exact = apply_exact c z t now false m w applied out can distinct done in
            let shown_drift = detect c t.is_utf8 w.tree m full_drift in
            let logged =
              record_event c a now (text "guard") (guard_detail shown status shown_drift b)
                r.1.fabric.audit_log in
            elim (Result-cases logged.0) [
              | inr (bad, q) ↦ absurd (cc (rw (loaded, back, p, q) at e))
              | inl (written, q) ↦
                  let made = (rw (loaded, back, p, q) at e) in
                  let same_tree : (apply c z t now false m w).1.tree ≡ v.tree =
                    sym tree ∙ ap (λ u. u.1.tree) made in
                  let there =
                    subst
                      (λ tree.
                        All (IsPlaced c tree) m.files
                        × ((names : Names) (node : Node)
                            → lookup names tree ≡ some node
                            → is_extra (map (λ f. f.path) m.files) names node ≡ false))
                      same_tree (exact.0, exact.1 refl) in
                  (
                    sym (ap (λ u. reverted_of u.0) made) ∙ reverted,
                    there.0,
                    there.1,
                    sym (ap (λ u. u.1.fabric.head_file) made) ∙ at_snap,
                  )
            ]
      ]
