-- ===== src/Revert/Files.antt =====
-- The loop over the files, and the checks of `apply` before it.
use respawn.Base.{
  ℕ, Bytes, some, List, [], ◌∷◌, ◌≡◌, ◌≢◌, refl, sym, ◌∙◌, ◌⊎◌, inl, inr, All, list_eq, nat_eq,
}
use mathlib.Core.Path.{subst}
use respawn.Base.Dict.{lookup}
use respawn.Errors.{ok, Result-cases}
use respawn.Paths.{names_of}
use respawn.Crates.{Crates}
use respawn.Store.{Zstd}
use respawn.Manifest.{FileEntry}
use respawn.Tree.{Node, file, dir, Names, World}
use respawn.Revert.{restore_file, restore_files}
use respawn.Revert.Restore.{IsRound, IsFileOf, IsPlaced, restore_file-IsRound}

-- A file of one of the entries.
abbrev pub IsFileOfAny : Crates → List FileEntry → Names → Node → Type 0
IsFileOfAny c [] names node = ⊥
IsFileOfAny c (fe ∷ fes) names node = IsFileOf c fe names node ⊎ IsFileOfAny c fes names node

-- What the rounds may do to the world, together.
pub record IsRun (c : Crates) (fes : List FileEntry) (w w' : World) : Type 0 where
  pub fabric : w'.fabric ≡ w.fabric
  pub nodes :
      (names : Names) (node : Node)
      → lookup names w'.tree ≡ some node
      → (lookup names w.tree ≡ some node) ⊎ ((node ≡ dir) ⊎ IsFileOfAny c fes names node)
  pub keeps :
      (names : Names) (node : Node)
      → All (λ fe. names ≢ names_of fe.path) fes
      → lookup names w.tree ≡ some node
      → lookup names w'.tree ≡ some node

-- No two entries lead to one place.
abbrev pub AreDistinct : List FileEntry → Type 0
AreDistinct [] = Unit
AreDistinct (fe ∷ fes) = All (λ g. names_of fe.path ≢ names_of g.path) fes × AreDistinct fes

module _ (c : Crates) where
  IsRun-refl : (fes : List FileEntry) (w : World) → IsRun c fes w w
  IsRun-refl fes w = record { fabric = refl; nodes = λ n o h. inl h; keeps = λ n o a h. h }

  IsRun-one :
      {fe : FileEntry} (fes : List FileEntry) {w w' : World}
      → IsRound c fe w w'
      → IsRun c (fe ∷ fes) w w'
  IsRun-one fes r = record {
    fabric = r.fabric;
    nodes = λ names node h. elim (r.nodes names node h) [
      | inl old ↦ inl old
      | inr (inl d) ↦ inr (inl d)
      | inr (inr f) ↦ inr (inr (inl f))
    ];
    keeps = λ names node a h. r.keeps names node a.0 h;
  }

  IsRun-cons :
      {fe : FileEntry} {fes : List FileEntry} {w u v : World}
      → IsRound c fe w u
      → IsRun c fes u v
      → IsRun c (fe ∷ fes) w v
  IsRun-cons r s = record {
    fabric = s.fabric ∙ r.fabric;
    nodes = λ names node h. elim (s.nodes names node h) [
      | inr (inl d) ↦ inr (inl d)
      | inr (inr f) ↦ inr (inr (inr f))
      | inl mid ↦ elim (r.nodes names node mid) [
        | inl old ↦ inl old
        | inr (inl d) ↦ inr (inl d)
        | inr (inr f) ↦ inr (inr (inl f))
      ]
    ];
    keeps = λ names node a h. s.keeps names node a.1 (r.keeps names node a.0 h);
  }

module _ (c : Crates) (z : Zstd) where
  -- What the loop comes to, file by file.
  pub restore_files-IsRun :
      (now : ℕ) (fes : List FileEntry) (w : World)
      → IsRun c fes w (restore_files c z now fes w).1
        × (AreDistinct fes
            → (paths : List Bytes) → (restore_files c z now fes w).0 ≡ ok paths
            → All (IsPlaced c (restore_files c z now fes w).1.tree) fes)
  unfolding restore_files
  restore_files-IsRun now [] w = (IsRun-refl c [] w, λ d p q. tt)
  restore_files-IsRun now (fe ∷ fes) w =
      let (round, placed) = restore_file-IsRound c z now fe w in
      let u = (restore_file c z now fe w).1 in
      let (run, rest) = restore_files-IsRun now fes u in
      elim (Result-cases (restore_file c z now fe w).0) [
        | inr (e, p) ↦ rw p (IsRun-one c fes round, λ d paths q. absurd (cc))
        | inl (b, p) ↦ elim (Result-cases (restore_files c z now fes u).0) [
          | inr (e, q) ↦ rw (p, q) (IsRun-cons c round run, λ d paths r. absurd (cc))
          | inl (more, q) ↦
              let (content, stat, there, good) = placed b p in
              let last : (restore_files c z now (fe ∷ fes) w).1 ≡ (restore_files c z now fes u).1 =
                rw (p, q) refl in
              subst
                (λ v.
                  IsRun c (fe ∷ fes) w v
                  × (AreDistinct (fe ∷ fes)
                      → (paths : List Bytes) → (restore_files c z now (fe ∷ fes) w).0 ≡ ok paths
                      → All (IsPlaced c v.tree) (fe ∷ fes)))
                (sym last)
                (
                  IsRun-cons c round run,
                  λ d paths r. (
                    (
                      content,
                      stat,
                      run.keeps (names_of fe.path) (file content stat) d.0 there,
                      good,
                    ),
                    rest d.1 more q,
                  ),
                )
        ]
      ]
