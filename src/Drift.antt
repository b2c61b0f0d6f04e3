-- ===== src/Drift.antt =====
-- src/snapshot.rs: `diff_manifests`; src/drift.rs: `detect`. Both build hash maps from the files
-- of a manifest, where a later file of the same path takes the place of an earlier one.
pub mod Diffs
pub mod Full
use respawn.Base.{
  ℕ, Bytes, Bool, true, false, not, ◌||◌, ◌&&◌, Option, none, some, List, [], ◌∷◌, any, contains,
  length, text, ◌==◌, list_eq, nat_eq, if◌then◌else◌, ◌≡◌,
}
use respawn.Base.Dict.{Dict, keys, lookup, insert, has}
use respawn.Base.Sort.{sort}
use respawn.Paths.{excluded, rel_str}
use respawn.Crates.{Crates, hash_bytes}
use respawn.Manifest.{FileEntry, Manifest}
use respawn.Tree.{Stat, Node, file, symlink, dir, Names, Tree}
use respawn.Snapshot.{has_part, ignore_patterns}

unfoldable pub by_path : List FileEntry → Dict Bytes FileEntry
by_path [] = []
by_path (fe ∷ fes) = let d = by_path fes in if has fe.path d then d else (fe.path, fe) ∷ d

-- What `diff_manifests` returns, before each list is sorted and after.
pub record Diff : Type 0 where
  pub added : List Bytes
  pub modified : List Bytes
  pub deleted : List Bytes

abbrev pub differs : FileEntry → Option FileEntry → Bool
differs fe none = false
differs fe (some other) = not (other.content == fe.content)

-- The loop over the newer manifest, which keeps what is new or what is changed.
unfoldable pub new_paths : Dict Bytes FileEntry → Dict Bytes FileEntry → List Bytes
new_paths [] other = []
new_paths ((p, fe) ∷ d) other =
    let rest = new_paths d other in if has p other then rest else p ∷ rest

unfoldable pub changed_paths : Dict Bytes FileEntry → Dict Bytes FileEntry → List Bytes
changed_paths [] other = []
changed_paths ((p, fe) ∷ d) other =
    let rest = changed_paths d other in if differs fe (lookup p other) then p ∷ rest else rest

unfoldable pub diff_manifests : Manifest → Manifest → Diff
unfolding by_path new_paths changed_paths sort
diff_manifests a b = record {
  added = sort (new_paths (by_path a.files) (by_path b.files));
  modified = sort (changed_paths (by_path a.files) (by_path b.files));
  deleted = sort (new_paths (by_path b.files) (by_path a.files));
}

pub record DriftReport : Type 0 where
  pub added : List Bytes
  pub modified : List Bytes
  pub deleted : List Bytes
  pub touched : List Bytes

-- `DriftReport::clean`
unfoldable pub clean : DriftReport → Bool
clean r = r.added == [] && r.modified == [] && r.deleted == [] && r.touched == []

-- The bytes of `.fabricignore` at the root.
abbrev pub ignore_file : Tree → Option Bytes
ignore_file tree = elim (lookup (text ".fabricignore" ∷ []) tree) [
  | some (file content stat) ↦ some content
  | _ ↦ none
]

-- A regular file that is neither excluded nor ignored.
unfoldable pub is_tracked : List Bytes → Names → Node → Bool
is_tracked patterns names (file content stat) =
    not (excluded names || any (λ p. has_part p (rel_str names)) patterns)
is_tracked patterns names _ = false

-- The fast path: size and time are as in the manifest.
abbrev pub looks_untouched : Bytes → Stat → FileEntry → Bool
looks_untouched content stat fe =
    length content == fe.size
    && stat.mtime_secs == fe.mtime_secs
    && stat.mtime_nanos == fe.mtime_nanos

pub data Verdict : Type 0 where
  added modified touched untouched : Verdict

module _ (c : Crates) where
  -- What the loop finds of one file.
  unfoldable pub judge : Bool → Option FileEntry → Bytes → Stat → Verdict
  judge full none content stat = added
  judge full (some fe) content stat =
      if not full && looks_untouched content stat fe
      then untouched
      else if hash_bytes c content == fe.content
      then touched
      else modified

  abbrev pub note_verdict : Verdict → Bytes → DriftReport → DriftReport
  note_verdict added p r = record r { added = p ∷ r.added }
  note_verdict modified p r = record r { modified = p ∷ r.modified }
  note_verdict touched p r = record r { touched = p ∷ r.touched }
  note_verdict untouched p r = r

  abbrev pub file_parts : Node → Bytes × Stat
  file_parts (file content stat) = (content, stat)
  file_parts _ = ([], record { mode = 0; mtime_secs = 0; mtime_nanos = 0 })

  -- The loop over the walk.
  unfoldable pub survey : Bool → List Bytes → Dict Bytes FileEntry → Tree → DriftReport
  unfolding is_tracked judge
  survey full patterns expected [] = record {
    added = [];
    modified = [];
    deleted = [];
    touched = [];
  }
  survey full patterns expected ((names, node) ∷ tree) =
      let rest = survey full patterns expected tree in
      if is_tracked patterns names node
      then note_verdict
          (judge full (lookup (rel_str names) expected) (file_parts node).0 (file_parts node).1)
          (rel_str names) rest
      else rest

  -- The set `seen`.
  unfoldable pub seen_paths : List Bytes → Tree → List Bytes
  unfolding is_tracked
  seen_paths patterns [] = []
  seen_paths patterns ((names, node) ∷ tree) =
      let rest = seen_paths patterns tree in
      if is_tracked patterns names node then rel_str names ∷ rest else rest

  unfoldable pub missing_paths : List Bytes → List Bytes → List Bytes
  missing_paths [] seen = []
  missing_paths (p ∷ ps) seen =
      let rest = missing_paths ps seen in if contains seen p then rest else p ∷ rest

  unfoldable pub detect : (Bytes → Bool) → Tree → Manifest → Bool → DriftReport
  unfolding by_path survey seen_paths missing_paths sort ignore_patterns
  detect is_utf8 tree m full =
      let patterns = ignore_patterns is_utf8 (ignore_file tree) in
      let found = survey full patterns (by_path m.files) tree in
      record {
        added = sort found.added;
        modified = sort found.modified;
        deleted = sort (missing_paths (keys (by_path m.files)) (seen_paths patterns tree));
        touched = sort found.touched;
      }
