-- ===== src/Snapshot/Walk.antt =====
-- What the loop over the worktree collects, and the snapshot that `create_from_actor` stores.
use respawn.Base.{
  ℕ, Bytes, Bool, Option, none, some, List, [], ◌∷◌, ◌≡◌, refl, ap, ◌⊎◌, inl, inr, All, any, arith,
  Bool-cases, list_eq, nat_eq, ◌==◌, ==_refl,
}
use mathlib.Core.Path.{subst}
use respawn.Errors.{Result, ok, err, Result-cases}
use respawn.Paths.{rel_str, sanitize_rel}
use respawn.Crates
use respawn.Crates.{Crates, Collision, hash_hex}
use respawn.Store
use respawn.Store.{Fabric, Zstd, get_manifest_bytes, put_manifest, head, set_head}
use respawn.Store.Laws.{IsHonestIn}
use respawn.Manifest.{FileEntry}
use respawn.Purge.{Tombstone}
use respawn.Revert.{materialize}
use respawn.Snapshot.{
  WalkEntry, Captured, Scan, chunk_file_stable, quiesce_retries, keep_captured, scan, is_skipped,
  file_entry,
}
use respawn.Snapshot.Capture.{
  IsCutter, HasChunks, IsStep, IsStep-refl, IsStep-trans, IsReadable, IsObserved,
  chunk_file_stable-IsCapture, read_chunks-Extends,
}

-- The entry of the manifest has the path of the file, and reads back as the content that one
-- attempt saw.
abbrev pub IsFileOfEntry : Crates → Zstd → Fabric → WalkEntry → FileEntry → Type 0
IsFileOfEntry c z t e fe =
    (fe.path ≡ rel_str e.names)
    × (n : ℕ) × (b : Bytes) × ((e.attempts n).content ≡ ok b)
    × (materialize c z fe t ≡ ok b)

abbrev pub IsFileOfWalk : Crates → Zstd → Fabric → List (Option WalkEntry) → FileEntry → Type 0
IsFileOfWalk c z t [] fe = ⊥
IsFileOfWalk c z t (none ∷ es) fe = IsFileOfWalk c z t es fe
IsFileOfWalk c z t (some e ∷ es) fe = IsFileOfEntry c z t e fe ⊎ IsFileOfWalk c z t es fe

abbrev files_of : Result Scan → List FileEntry
files_of (ok s) = s.files
files_of (err e) = []

pub record IsScan (c : Crates) (z : Zstd) (P : Bytes → Type 0) (es : List (Option WalkEntry))
    (s t : Fabric) (r : Result Scan) : Type 0 where
  pub step : IsStep c z P s t
  pub good :
      (sc : Scan)
      → r ≡ ok sc
      → IsHonestIn c z P s
      → All (IsFileOfWalk c z t es) sc.files ⊎ Collision c P

module _ (c : Crates) (z : Zstd) where
  later_files :
      (t : Fabric) (e : WalkEntry) (es : List (Option WalkEntry)) (fes : List FileEntry)
      → All (IsFileOfWalk c z t es) fes
      → All (IsFileOfWalk c z t (some e ∷ es)) fes
  later_files t e es [] h = tt
  later_files t e es (fe ∷ fes) h = (inr h.0, later_files t e es fes h.1)

  materialize-IsReadable :
      (t : Fabric) (e : WalkEntry) (rel content : Bytes) (captured : Captured)
      → IsReadable c z t captured content
      → materialize c z (file_entry e rel captured) t ≡ ok content
  unfolding materialize
  materialize-IsReadable t e rel content captured r =
      rw (r.chunks, materialize, r.hash, ==_refl (c.blake3 content)) refl

  kept_files :
      (ts : List Tombstone) (t : Fabric) (e : WalkEntry) (es : List (Option WalkEntry))
      (captured : Captured) (changing : Bool) (rest : Scan)
      → IsObserved c z t e.attempts captured
      → All (IsFileOfWalk c z t es) rest.files
      → All
          (IsFileOfWalk c z t (some e ∷ es))
          (keep_captured c ts e (captured, changing) rest).files
  unfolding keep_captured
  kept_files ts t e es captured changing rest (n, b, seen, r) h =
      elim (Bool-cases (any (λ t. t.content == hash_hex c captured.content) ts)) [
        | inl dead ↦ rw (dead) (later_files t e es rest.files h)
        | inr live ↦ rw live (
          inl (refl, n, b, seen, materialize-IsReadable t e (rel_str e.names) b captured r),
          later_files t e es rest.files h,
        )
      ]

-- The chunks of what a capture of each file of the walk sees are texts of `P`.
abbrev pub HaveChunks : (Bytes → Type 0) → (Bytes → List Bytes) → List (Option WalkEntry) → Type 0
HaveChunks P cut [] = Unit
HaveChunks P cut (none ∷ es) = HaveChunks P cut es
HaveChunks P cut (some e ∷ es) = HasChunks P cut e.attempts × HaveChunks P cut es

module _ (c : Crates) (z : Zstd) (P : Bytes → Type 0) (cut : Bytes → List Bytes)
    (L : Crates.IsLawful c) (Z : Store.IsLawful z) (K : IsCutter cut) where
  pub scan-IsScan :
      (patterns : List Bytes) (ts : List Tombstone) (es : List (Option WalkEntry)) (s : Fabric)
      → HaveChunks P cut es
      → IsScan c z P es s (scan c z cut patterns ts es s).1 (scan c z cut patterns ts es s).0
  unfolding scan
  scan-IsScan patterns ts [] s ps = record {
    step = IsStep-refl c z P L Z s;
    good = λ sc e h. inl (subst (All (IsFileOfWalk c z s [])) (ap files_of e) tt);
  }
  scan-IsScan patterns ts (none ∷ es) s ps =
      let rest = scan-IsScan patterns ts es s ps in record { step = rest.step; good = rest.good }
  scan-IsScan patterns ts (some e ∷ es) s (here, ps) =
      let rest = scan-IsScan patterns ts es s ps in
      let widen : (t : Fabric) (fes : List FileEntry)
          → All (IsFileOfWalk c z t es) fes ⊎ Collision c P
          → All (IsFileOfWalk c z t (some e ∷ es)) fes ⊎ Collision c P =
        λ t fes g. elim g [ inl all ↦ inl (later_files c z t e es fes all) | inr hit ↦ inr hit ] in
      elim (Bool-cases (is_skipped patterns e)) [
        | inl skip ↦
            rw skip
              (record { step = rest.step; good = λ sc q h. widen _ sc.files (rest.good sc q h) })
        | inr look ↦ elim (Bool-cases (any (λ t. t.path == rel_str e.names) ts)) [
          | inl dead ↦ elim (Result-cases (scan c z cut patterns ts es s).0) [
            | inr (f, p) ↦
                rw (look, dead, p) (record { step = rest.step; good = λ sc q h. absurd (cc) })
            | inl (found, p) ↦
                rw (look, dead, p)
                  (record {
                    step = rest.step;
                    good = λ sc q h.
                        subst
                          (λ fs.
                            All (IsFileOfWalk c z (scan c z cut patterns ts es s).1 (some e ∷ es))
                              fs
                            ⊎ Collision c P)
                          (ap files_of q) (widen _ found.files (rest.good found p h));
                  })
          ]
          | inr live ↦ elim (Result-cases (sanitize_rel (rel_str e.names))) [
            | inr (f, p) ↦
                rw (look, live, p)
                  (record { step = IsStep-refl c z P L Z s; good = λ sc q h. absurd (cc) })
            | inl (_, p) ↦
                let first =
                  chunk_file_stable-IsCapture c z P cut L Z K e.attempts 0 quiesce_retries s here
                    (omega arith) in
                let u = (chunk_file_stable c z cut e.attempts 0 quiesce_retries s).1 in
                let more = scan-IsScan patterns ts es u ps in
                elim (Result-cases (chunk_file_stable c z cut e.attempts 0 quiesce_retries s).0) [
                  | inr (f, q) ↦
                      rw (look, live, p, q)
                        (record { step = first.step; good = λ sc r h. absurd (cc) })
                  | inl ((captured, changing), q) ↦
                      elim (Result-cases (scan c z cut patterns ts es u).0) [
                        | inr (f, r) ↦
                            rw (look, live, p, q, r)
                              (record {
                                step = IsStep-trans c z P L Z first.step more.step;
                                good = λ sc t h. absurd (cc);
                              })
                        | inl (found, r) ↦
                            rw (look, live, p, q, r)
                              (record {
                                step = IsStep-trans c z P L Z first.step more.step;
                                good = λ sc t h.
                                    let v = (scan c z cut patterns ts es u).1 in
                                    elim (first.good captured changing q h) [
                                      | inr hit ↦ inr hit
                                      | inl (n, b, seen, r0) ↦
                                          elim (more.good found r (first.step.honest h)) [
                                            | inr hit ↦ inr hit
                                            | inl all ↦ inl (
                                                subst (All (IsFileOfWalk c z v (some e ∷ es)))
                                                  (ap files_of t)
                                                  (kept_files c z ts v e es captured changing found
                                                    (
                                                      n,
                                                      b,
                                                      seen,
                                                      record {
                                                        chunks =
                                                            read_chunks-Extends c z u v
                                                            captured.chunks b more.step.more
                                                            r0.chunks;
                                                        hash = r0.hash;
                                                        size = r0.size;
                                                      },
                                                    )
                                                    all))
                                          ]
                                    ];
                              })
                      ]
                ]
          ]
        ]
      ]
