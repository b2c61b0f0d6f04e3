-- ===== src/Manifest.antt =====
-- src/snapshot.rs: the manifest, its serialization, `validate` and `load`.
pub mod Validate
use respawn.Base.{
  ℕ, ◌+◌, ◌*◌, ◌≤◌, Bytes, Bool, true, false, ◌||◌, ◌&&◌, Option, none, some, List, [], ◌∷◌, length,
  ltb, ◌==◌, list_eq, nat_eq, if◌then◌else◌, ◌≡◌, ◌<◌,
}
use respawn.Errors.{Result, ok, err, corrupt, refuse_if, ◌>>=◌, ◌>>◌}
use respawn.Paths.{sanitize_rel}
use respawn.Crates.{Crates}
use respawn.Store.{Fabric, get_manifest_bytes}

pub record FileEntry : Type 0 where
  pub path : Bytes
  pub mode : ℕ
  pub size : ℕ
  pub mtime_secs : ℕ
  pub mtime_nanos : ℕ
  pub content : Bytes
  pub chunks : List Bytes

pub record Manifest : Type 0 where
  pub version : ℕ
  pub parent : Option Bytes
  pub timestamp_secs : ℕ
  pub message : Bytes
  pub files : List FileEntry
  pub unstable : List Bytes
  pub actor : Option Bytes

-- serde_json at the type `Manifest`.
pub record ManifestJson : Type 0 where
  pub to_vec : Manifest → Option Bytes
  pub from_slice : Bytes → Option Manifest

-- What was serialized reads back as it was.
pub record IsLawful (j : ManifestJson) : Type 0 where
  pub round_trip : (m : Manifest) (b : Bytes) → j.to_vec m ≡ some b → j.from_slice b ≡ some m

abbrev pub manifest_version : ℕ
manifest_version = 3

abbrev pub min_manifest_version : ℕ
min_manifest_version = 2

abbrev pub max_manifest_files : ℕ
max_manifest_files = 2_000_000

abbrev pub max_manifest_chunks : ℕ
max_manifest_chunks = 8_000_000

abbrev pub max_manifest_bytes : ℕ
max_manifest_bytes = 256 * 1024 * 1024

unfoldable pub serialize : ManifestJson → Manifest → Result Bytes
serialize j m = elim (j.to_vec m) [ none ↦ err (corrupt "json") | some b ↦ ok b ]

unfoldable pub deserialize : ManifestJson → Bytes → Result Manifest
deserialize j b =
    if ltb max_manifest_bytes (length b)
    then err (corrupt "manifest exceeds size cap")
    else elim (j.from_slice b) [ none ↦ err (corrupt "json") | some m ↦ ok m ]

-- The loop of `validate`; `total` is the number of chunks so far.
unfoldable pub validate_files : List FileEntry → ℕ → Result (Unit {0})
validate_files [] total = ok tt
validate_files (f ∷ fs) total =
    let rest = validate_files fs (total + length f.chunks) in
    do
      checked ← sanitize_rel f.path
      refuse_if (ltb max_manifest_chunks (total + length f.chunks))
          (corrupt "manifest exceeds chunk count cap")
      refuse_if (f.chunks == [] && ltb 0 f.size) (corrupt "non-empty file with no chunks")
      rest

unfoldable pub validate : Manifest → Result (Unit {0})
unfolding validate_files
validate m = do
  refuse_if (ltb manifest_version m.version || ltb m.version min_manifest_version)
      (corrupt "unsupported manifest version")
  refuse_if (ltb max_manifest_files (length m.files)) (corrupt "manifest exceeds file count cap")
  validate_files m.files 0

unfoldable pub load : Crates → ManifestJson → Bytes → Fabric → Result Manifest
load c j id s = do b ← get_manifest_bytes c id s; m ← deserialize j b; validate m; ok m
