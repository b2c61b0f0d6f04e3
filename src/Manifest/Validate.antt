-- ===== src/Manifest/Validate.antt =====
-- `validate` accepts exactly the manifests that are well formed.
use respawn.Base.{
  ℕ, ◌+◌, ◌≤◌, ◌<◌, Bytes, ◌≡◌, refl, ap, sym, ◌∙◌, ◌≢◌, inl, inr, ◌↔◌, List, [], ◌∷◌, length,
  list_eq, nat_eq, arith, All,
}
use respawn.Errors.{ok, Result-cases}
use respawn.Paths.{sanitize_rel}
use respawn.Paths.Contained.{sanitize_rel-eq_ok}
use respawn.Manifest.{
  FileEntry, Manifest, manifest_version, min_manifest_version, max_manifest_files,
  max_manifest_chunks, validate, validate_files,
}

abbrev pub chunk_count : List FileEntry → ℕ
chunk_count [] = 0
chunk_count (f ∷ fs) = length f.chunks + chunk_count fs

-- A safe path, and chunks if there is content.
pub record IsEntry (f : FileEntry) : Type 0 where
  pub safe : sanitize_rel f.path ≡ ok f.path
  pub has_chunks : 0 < f.size → f.chunks ≢ []

pub record IsValid (m : Manifest) : Type 0 where
  pub version_le : m.version ≤ manifest_version
  pub version_ge : min_manifest_version ≤ m.version
  pub few_files : length m.files ≤ max_manifest_files
  pub few_chunks : chunk_count m.files ≤ max_manifest_chunks
  pub entries : All IsEntry m.files

accepted_path : (p : Bytes) {q : Bytes} → sanitize_rel p ≡ ok q → sanitize_rel p ≡ ok p
accepted_path p {q} h = h ∙ ap ok (sym (sanitize_rel-eq_ok p q h).0)

validate_files_sound :
    (fs : List FileEntry) (total : ℕ)
    → total ≤ max_manifest_chunks
    → validate_files fs total ≡ ok tt
    → All IsEntry fs × (total + chunk_count fs ≤ max_manifest_chunks)
unfolding validate_files
validate_files_sound [] total b h = (tt, omega arith)
validate_files_sound (f ∷ fs) total b h = elim (Result-cases (sanitize_rel f.path)) [
  | inr (e, p) ↦ absurd (ground arith)
  | inl (q, p) ↦
      let small : total + length f.chunks ≤ max_manifest_chunks = ground arith in
      let more = validate_files_sound fs (total + length f.chunks) small (ground arith) in
      (
        (record { safe = accepted_path f.path p; has_chunks = ground arith }, more.0),
        omega (arith, more.1),
      )
]

validate_files_complete :
    (fs : List FileEntry) (total : ℕ)
    → All IsEntry fs
    → total + chunk_count fs ≤ max_manifest_chunks
    → validate_files fs total ≡ ok tt
unfolding validate_files
validate_files_complete [] total e b = refl
validate_files_complete (f ∷ fs) total e b =
    ground
      (arith, e.0.safe, e.0.has_chunks, validate_files_complete fs (total + length f.chunks) e.1)

-- `validate` accepts a manifest exactly when its version is supported, it has at most 2,000,000
-- files and 8,000,000 chunks, every path is safe, and every file with content has chunks.
pub validate-eq_ok : (m : Manifest) → (validate m ≡ ok tt) ↔ IsValid m
unfolding validate
validate-eq_ok m = (
  λ h.
      let r = validate_files_sound m.files 0 (omega arith) (ground arith) in
      record {
        version_le = ground arith;
        version_ge = ground arith;
        few_files = ground arith;
        few_chunks = omega (arith, r.1);
        entries = r.0;
      },
  λ v.
      ground (
        arith,
        v.version_le,
        v.version_ge,
        v.few_files,
        validate_files_complete m.files 0 v.entries,
      ),
)
