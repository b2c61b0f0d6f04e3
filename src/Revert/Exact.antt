-- ===== src/Revert/Exact.antt =====
-- What `apply` comes to as a whole, on success and on failure.
use respawn.Base.{
  ℕ, Bytes, Bool, true, false, some, List, [], ◌∷◌, ◌≡◌, refl, ap, sym, ◌∙◌, ◌⊎◌, inl, inr, All,
  map, contains, arith, list_eq, nat_eq,
}
use mathlib.Core.Path.{subst}
use respawn.Base.Dict.{lookup}
use respawn.Errors.{ok, Result-cases}
use respawn.Paths.{names_of, rel_str, excluded}
use respawn.Crates.{Crates}
use respawn.Store.{Zstd}
use respawn.Manifest.{FileEntry, Manifest, validate}
use respawn.Purge.{TombstoneJson, tombstones}
use respawn.Tree.{Node, dir, Names, Tree, World}
use respawn.Revert.{
  restore_files, tidy, rewrite, apply, wanted_paths, refuse_purged, RevertReport, is_extra,
}
use respawn.Revert.Restore.{IsPlaced}
use respawn.Revert.Files.{IsFileOfAny, AreDistinct, restore_files-IsRun}
use respawn.Revert.Tidy.{tidy-old, tidy_keeps, tidy_removes}

-- No path of the manifest leads into the fabric's own directory, which the worktree of the model
-- leaves out.
abbrev pub AreOutside : List FileEntry → Type 0
AreOutside = All (λ fe. excluded (names_of fe.path) ≡ false)

-- The names of the path spell the path.
abbrev pub AreCanonical : List FileEntry → Type 0
AreCanonical = All (λ fe. rel_str (names_of fe.path) ≡ fe.path)

-- What stands in the worktree stood there before, is a directory, or is a file of the manifest
-- with the content that it names; the fabric is as it was.
pub record IsSafe (c : Crates) (fes : List FileEntry) (w w' : World) : Type 0 where
  pub fabric : w'.fabric ≡ w.fabric
  pub nodes :
      (names : Names) (node : Node)
      → lookup names w'.tree ≡ some node
      → (lookup names w.tree ≡ some node) ⊎ ((node ≡ dir) ⊎ IsFileOfAny c fes names node)

contains_wanted :
    (fes : List FileEntry) → All (λ fe. contains (map (λ f. f.path) fes) fe.path ≡ true) fes
contains_wanted fes = within fes (λ p h. h)
  where
    within :
        (gs : List FileEntry)
        → ((p : Bytes)
            → contains (map (λ f. f.path) gs) p ≡ true
            → contains (map (λ f. f.path) fes) p ≡ true)
        → All (λ fe. contains (map (λ f. f.path) fes) fe.path ≡ true) gs
    within [] k = tt
    within (g ∷ gs) k = (k g.path (ground arith), within gs (λ p h. k p (ground arith)))

module _ (c : Crates) (z : Zstd) (j : TombstoneJson) where
  rewrite-IsSafe :
      (now : ℕ) (keep_extra : Bool) (m : Manifest) (w : World)
      → IsSafe c m.files w (rewrite c z j now keep_extra m w).1
  unfolding rewrite
  rewrite-IsSafe now keep_extra m w =
      let run = (restore_files-IsRun c z now m.files w).0 in
      elim (Result-cases (restore_files c z now m.files w).0) [
        | inr (e, p) ↦ rw p (record { fabric = run.fabric; nodes = run.nodes })
        | inl (paths, p) ↦ rw p (record {
          fabric = run.fabric;
          nodes = λ names node h. run.nodes names node (tidy-old _ keep_extra _ names node h);
        })
      ]

  -- Whatever `apply` returns, the fabric is as it was, and what then stands at a path of the
  -- worktree stood there before, is a directory, or is a file of the manifest, at its own path
  -- and with content of the hash that the manifest names. For a manifest without a path into
  -- `.respawn`, `.git` or `.DS_Store`.
  pub apply-IsSafe :
      (now : ℕ) (keep_extra : Bool) (m : Manifest) (w : World)
      → AreOutside m.files
      → IsSafe c m.files w (apply c z j now keep_extra m w).1
  unfolding apply
  apply-IsSafe now keep_extra m w out =
      let idle : IsSafe c m.files w w = record { fabric = refl; nodes = λ names node h. inl h } in
      elim (Result-cases (validate m)) [
        | inr (e, p) ↦ rw p idle
        | inl (_, p) ↦ elim (Result-cases (tombstones j w.fabric)) [
          | inr (e, q) ↦ rw (p, q) idle
          | inl (ts, q) ↦ elim (Result-cases (refuse_purged c z j ts m.files)) [
            | inr (e, r) ↦ rw (p, q, r) idle
            | inl (_, r) ↦ rw (p, q, r) (rewrite-IsSafe now keep_extra m w)
          ]
        ]
      ]

  apply-eq_ok :
      (now : ℕ) (keep_extra : Bool) (m : Manifest) (w : World) (report : RevertReport)
      → (apply c z j now keep_extra m w).0 ≡ ok report
      → apply c z j now keep_extra m w ≡ rewrite c z j now keep_extra m w
  unfolding apply
  apply-eq_ok now keep_extra m w report h = elim (Result-cases (validate m)) [
    | inr (e, p) ↦ absurd (cc (rw p at h))
    | inl (_, p) ↦ elim (Result-cases (tombstones j w.fabric)) [
      | inr (e, q) ↦ absurd (cc (rw (p, q) at h))
      | inl (ts, q) ↦ elim (Result-cases (refuse_purged c z j ts m.files)) [
        | inr (e, r) ↦ absurd (cc (rw (p, q, r) at h))
        | inl (_, r) ↦ rw (p, q, r) refl
      ]
    ]
  ]

  rewrite-eq_ok :
      (now : ℕ) (keep_extra : Bool) (m : Manifest) (w : World) (report : RevertReport)
      → (rewrite c z j now keep_extra m w).0 ≡ ok report
      → (paths : List Bytes) × ((restore_files c z now m.files w).0 ≡ ok paths)
        × ((rewrite c z j now keep_extra m w).1.tree
            ≡ tidy (wanted_paths c z j m) keep_extra (restore_files c z now m.files w).1.tree)
  unfolding rewrite
  rewrite-eq_ok now keep_extra m w report h =
      elim (Result-cases (restore_files c z now m.files w).0) [
        | inr (e, p) ↦ absurd (cc (rw p at h))
        | inl (paths, p) ↦ (paths, p, rw p refl)
      ]

  IsPlaced-tidy :
      (keep_extra : Bool) (wanted : List Bytes) (tree : Tree) (fes : List FileEntry)
      → AreCanonical fes
      → All (λ fe. contains wanted fe.path ≡ true) fes
      → All (IsPlaced c tree) fes
      → All (IsPlaced c (tidy wanted keep_extra tree)) fes
  IsPlaced-tidy keep_extra wanted tree [] can want p = tt
  IsPlaced-tidy keep_extra wanted tree (fe ∷ fes) can want ((content, stat, there, good), ps) = (
    (
      content,
      stat,
      tidy_keeps wanted keep_extra tree (names_of fe.path) content stat (rw can.0 want.0) there,
      good,
    ),
    IsPlaced-tidy keep_extra wanted tree fes can.1 want.1 ps,
  )

  -- Where `apply` succeeds, every file of the manifest stands at its path with content of the
  -- hash that the manifest names, and, unless extra files are kept, every other file or link left
  -- is excluded or has a path that the manifest names. For a manifest whose paths are spelled
  -- canonically, lead to different places, and not into `.respawn`, `.git` or `.DS_Store`.
  pub apply_exact :
      (now : ℕ) (keep_extra : Bool) (m : Manifest) (w : World) (report : RevertReport)
      → AreOutside m.files
      → AreCanonical m.files
      → AreDistinct m.files
      → (apply c z j now keep_extra m w).0 ≡ ok report
      → All (IsPlaced c (apply c z j now keep_extra m w).1.tree) m.files
        × (keep_extra ≡ false
            → (names : Names) (node : Node)
            → lookup names (apply c z j now keep_extra m w).1.tree ≡ some node
            → is_extra (map (λ f. f.path) m.files) names node ≡ false)
  apply_exact now keep_extra m w report out can distinct h =
      let same = apply-eq_ok now keep_extra m w report h in
      let (paths, good, final) = rewrite-eq_ok now keep_extra m w report (rw (← same) h) in
      let tree = (restore_files c z now m.files w).1.tree in
      let here : (apply c z j now keep_extra m w).1.tree
          ≡ tidy (map (λ f. f.path) m.files) keep_extra tree =
        ap (λ r. r.1.tree) same ∙ final in
      subst
        (λ t.
          All (IsPlaced c t) m.files
          × (keep_extra ≡ false
              → (names : Names) (node : Node) → lookup names t ≡ some node
              → is_extra (map (λ f. f.path) m.files) names node ≡ false))
        (sym here)
        (
          IsPlaced-tidy keep_extra _ tree m.files can (contains_wanted m.files)
              ((restore_files-IsRun c z now m.files w).1 distinct paths good),
          λ drop names node g.
              tidy_removes (map (λ f. f.path) m.files) tree names node (rw drop at g),
        )
