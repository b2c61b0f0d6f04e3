-- ===== src/Snapshot.antt =====
-- src/snapshot.rs: `create_from_actor` and what it calls. The walk of the worktree is a list of
-- entries, in its order; an entry that cannot be read is `none`. Other processes may write while
-- a file is captured, so an entry carries what each attempt observes. fastcdc, behind
-- src/cdc.rs, is the parameter `cut`, and the test for UTF-8 the parameter `is_utf8`.
pub mod Capture
pub mod Walk
pub mod Made
use respawn.Base.{
  ℕ, zero, suc, Bytes, text, Bool, true, false, not, ◌||◌, ◌&&◌, Option, none, some, List, [], ◌∷◌,
  ◌++◌, length, any, ◌==◌, list_eq, nat_eq, if◌then◌else◌, ◌≡◌, ◌%◌,
}
use respawn.Errors
use respawn.Errors.{Result, ok, err}
use respawn.Exec.{Exec, pure, reads, lift, modify, ◌>>=◌, ◌>>◌}
use respawn.Lines.{lines, trim}
use respawn.Paths.{sanitize_rel, excluded, rel_str}
use respawn.Crates.{Crates, hash_bytes, hash_hex}
use respawn.Store.{Fabric, Zstd, put_object, put_manifest, head, set_head}
use respawn.Manifest.{FileEntry, Manifest, ManifestJson, manifest_version, serialize}
use respawn.Purge.{Tombstone, TombstoneJson, tombstones}

abbrev pub starts_with : Bytes → Bytes → Bool
starts_with [] s = true
starts_with (p ∷ ps) [] = false
starts_with (p ∷ ps) (b ∷ s) = p == b && starts_with ps s

-- `str::contains`, whether the pattern stands somewhere in the text.
abbrev pub has_part : Bytes → Bytes → Bool
has_part p [] = starts_with p []
has_part p (b ∷ s) = starts_with p (b ∷ s) || has_part p s

abbrev keep_patterns : List Bytes → List Bytes
keep_patterns [] = []
keep_patterns (l ∷ ls) =
    let rest = keep_patterns ls in
    if trim l == [] || starts_with (text "#") (trim l) then rest else trim l ∷ rest

-- From the bytes of `.fabricignore`, `none` where it is missing.
unfoldable pub ignore_patterns : (Bytes → Bool) → Option Bytes → List Bytes
ignore_patterns is_utf8 none = []
ignore_patterns is_utf8 (some content) =
    if is_utf8 content then keep_patterns (lines content) else []

-- `(meta.len(), mtime)`
abbrev pub Stamp : Type 0
Stamp = ℕ × ℕ

-- What one attempt to read a file observes.
pub record Attempt : Type 0 where
  pub before : Result Stamp
  pub content : Result Bytes
  pub after : Result Stamp

pub record WalkEntry : Type 0 where
  pub names : List Bytes
  pub is_file : Bool
  pub mode : ℕ
  pub mtime_secs : ℕ
  pub mtime_nanos : ℕ
  pub attempts : ℕ → Attempt

pub record Captured : Type 0 where
  pub content : Bytes
  pub chunks : List Bytes
  pub size : ℕ

abbrev pub concat : List Bytes → Bytes
concat [] = []
concat (b ∷ bs) = b ++ concat bs

abbrev pub quiesce_retries : ℕ
quiesce_retries = 3

abbrev pub same_stamp : Stamp → Stamp → Bool
same_stamp (size, mtime) (other_size, other_mtime) = size == other_size && mtime == other_mtime

module _ (c : Crates) (z : Zstd) where
  unfoldable pub put_chunks : List Bytes → Exec Fabric (List Bytes)
  put_chunks [] = pure []
  put_chunks (b ∷ bs) =
      let more = put_chunks bs in do h ← put_object c z b; hs ← more; pure (h ∷ hs)

module _ (c : Crates) (z : Zstd) (cut : Bytes → List Bytes) where
  unfoldable pub chunk_file : Bytes → Exec Fabric Captured
  unfolding put_chunks
  chunk_file content = do
    hs ← put_chunks c z (cut content)
    pure (record {
      content = hash_bytes c (concat (cut content));
      chunks = hs;
      size = length (concat (cut content));
    })

  -- The attempts from number `n` on, with `left` more after it; also whether the file was still
  -- changing.
  unfoldable pub chunk_file_stable : (ℕ → Attempt) → ℕ → ℕ → Exec Fabric (Captured × Bool)
  unfolding chunk_file
  chunk_file_stable attempts n zero = do
    before ← lift (attempts n).before
    content ← lift (attempts n).content
    captured ← chunk_file content
    after ← lift (attempts n).after
    pure (captured, not (same_stamp before after))
  chunk_file_stable attempts n (suc left) =
      let again = chunk_file_stable attempts (suc n) left in
      do
        before ← lift (attempts n).before
        content ← lift (attempts n).content
        captured ← chunk_file content
        after ← lift (attempts n).after
        if same_stamp before after then pure (captured, false) else again

-- What the loop collects.
pub record Scan : Type 0 where
  pub files : List FileEntry
  pub unstable : List Bytes
  pub purged : List Bytes

abbrev pub file_entry : WalkEntry → Bytes → Captured → FileEntry
file_entry e rel captured = record {
  path = rel;
  mode = e.mode % 512;
  size = captured.size;
  mtime_secs = e.mtime_secs;
  mtime_nanos = e.mtime_nanos;
  content = captured.content;
  chunks = captured.chunks;
}

-- The entries that the loop passes over without a word.
unfoldable pub is_skipped : List Bytes → WalkEntry → Bool
is_skipped patterns e =
    not e.is_file || excluded e.names || any (λ p. has_part p (rel_str e.names)) patterns

-- The end of a round: the content may be tombstoned under another name.
unfoldable pub keep_captured : Crates → List Tombstone → WalkEntry → Captured × Bool → Scan → Scan
keep_captured c ts e (captured, changing) rest =
    let rel = rel_str e.names in
    let unstable = if changing then rel ∷ rest.unstable else rest.unstable in
    if any (λ t. t.content == hash_hex c captured.content) ts
    then record { files = rest.files; unstable = unstable; purged = rel ∷ rest.purged }
    else record {
      files = file_entry e rel captured ∷ rest.files;
      unstable = unstable;
      purged = rest.purged;
    }

module _ (c : Crates) (z : Zstd) (cut : Bytes → List Bytes) where
  unfoldable pub scan : List Bytes → List Tombstone → List (Option WalkEntry) → Exec Fabric Scan
  unfolding chunk_file_stable is_skipped keep_captured
  scan patterns ts [] = pure (record { files = []; unstable = []; purged = [] })
  scan patterns ts (none ∷ es) = scan patterns ts es
  scan patterns ts (some e ∷ es) =
      let rest = scan patterns ts es in
      if is_skipped patterns e
      then rest
      else if any (λ t. t.path == rel_str e.names) ts
      then (do s ← rest; pure (record s { purged = rel_str e.names ∷ s.purged }))
      else do
        checked ← lift (sanitize_rel (rel_str e.names))
        captured ← chunk_file_stable c z cut e.attempts 0 quiesce_retries
        s ← rest
        pure (keep_captured c ts e captured s)

  -- At the time `now`; `ignore` is the file `.fabricignore`.
  unfoldable pub create_from_actor :
      ManifestJson
      → TombstoneJson
      → ℕ
      → Option Bytes
      → Bytes
      → Option Bytes
      → List (Option WalkEntry)
      → Exec Fabric Bytes
  unfolding ignore_patterns scan
  create_from_actor j t now ignore message actor entries = do
    ts ← reads (tombstones t)
    s ← scan (ignore_patterns t.is_utf8 ignore) ts entries
    parent ← reads (head c)
    content ← lift (
        serialize j (record {
          version = manifest_version;
          parent = parent;
          timestamp_secs = now;
          message = message;
          files = s.files;
          unstable = s.unstable;
          actor = actor;
        }))
    id ← put_manifest c content
    modify (set_head c (some id))
    pure id
