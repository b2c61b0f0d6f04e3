-- ===== src/Revert.antt =====
-- src/revert.rs: `resolve_dest` and `apply`, over the worktree and the fabric. A file system
-- operation fails where the tree makes it fail (a rename over a directory); the temporary files
-- under `.respawn/tmp` are not part of the model.
pub mod Restore
pub mod Files
pub mod Tidy
pub mod Exact
use respawn.Base.{
  ℕ, ◌%◌, Bytes, Bool, true, false, not, ◌||◌, ◌&&◌, Option, none, some, List, [], ◌∷◌, ◌++◌, map,
  length, contains, any, ltb, leb, ◌==◌, list_eq, nat_eq, if◌then◌else◌, ◌≡◌, String,
}
use respawn.Base.Dict.{lookup, insert, erase, has}
use respawn.Errors
use respawn.Errors.{Result, ok, err, corrupt, unsafe_path, io}
use respawn.Exec.{Exec, pure, raise, reads, lift, modify, ◌>>=◌, ◌>>◌}
use respawn.Paths.{sanitize_rel, names_of, excluded, rel_str}
use respawn.Crates.{Crates, hash_bytes}
use respawn.Store.{Fabric, Zstd, get_object}
use respawn.Manifest.{FileEntry, Manifest, validate}
use respawn.Purge.{TombstoneJson, Tombstone, tombstones, is_tombstoned}
use respawn.Tree.{Stat, Node, file, symlink, dir, Names, Tree, World}

-- The loop of `resolve_dest` over the ancestors; `cur` is the path so far.
unfoldable pub check_ancestors : Tree → Names → Names → Bytes → Result (Unit {0})
check_ancestors tree cur [] rel = ok tt
check_ancestors tree cur (n ∷ []) rel = ok tt
check_ancestors tree cur (n ∷ m ∷ ns) rel =
    let rest = check_ancestors tree (cur ++ n ∷ []) (m ∷ ns) rel in
    elim (lookup (cur ++ n ∷ []) tree) [
      | none ↦ rest
      | some dir ↦ rest
      | some (symlink target) ↦ err (unsafe_path rel)
      | some (file content stat) ↦ err (unsafe_path rel)
    ]

unfoldable pub resolve_dest : Tree → Bytes → Result Names
unfolding check_ancestors
resolve_dest tree rel =
    Errors.◌>>=◌ (sanitize_rel rel)
      λ p. Errors.◌>>=◌ (check_ancestors tree [] (names_of p) rel) λ _. ok (names_of p)

-- `fs::create_dir_all` on the parent, after `resolve_dest`: a missing ancestor becomes a directory.
unfoldable pub create_parents : Names → Names → Tree → Tree
create_parents cur [] tree = tree
create_parents cur (n ∷ []) tree = tree
create_parents cur (n ∷ m ∷ ns) tree =
    create_parents (cur ++ n ∷ []) (m ∷ ns)
      (if has (cur ++ n ∷ []) tree then tree else insert (cur ++ n ∷ []) dir tree)

-- `mode & 0o777`, and the time of the write.
abbrev pub restored_stat : ℕ → ℕ → Stat
restored_stat now mode = record { mode = mode % 512; mtime_secs = now; mtime_nanos = 0 }

module _ (c : Crates) (z : Zstd) where
  -- `needs_write`: a regular file with the content is left alone.
  unfoldable pub needs_write : FileEntry → Option Node → Bool
  needs_write fe (some (file content stat)) = not (hash_bytes c content == fe.content)
  needs_write fe _ = true

  -- The chunks, read and put together.
  unfoldable pub read_chunks : List Bytes → Fabric → Result Bytes
  read_chunks [] s = ok []
  read_chunks (h ∷ hs) s =
      let more = read_chunks hs s in
      Errors.◌>>=◌ (get_object c z h s) λ b. Errors.◌>>=◌ more λ bs. ok (b ++ bs)

  unfoldable pub materialize : FileEntry → Fabric → Result Bytes
  unfolding read_chunks
  materialize fe s = Errors.◌>>=◌ (read_chunks fe.chunks s) λ content.
      if hash_bytes c content == fe.content
      then ok content
      else err (corrupt "reconstructed content mismatch")

  -- `fs::rename` and `set_mode`, at the time `now`.
  unfoldable pub place : ℕ → Names → ℕ → Bytes → Exec World (Unit {0})
  place now dest mode content w = elim (lookup dest w.tree) [
    | some dir ↦ (err (io "Is a directory"), w)
    | _ ↦ (ok tt, record w { tree = insert dest (file content (restored_stat now mode)) w.tree })
  ]

  -- The chunks are read, checked and put in place.
  unfoldable pub rewrite_file : ℕ → FileEntry → Names → Exec World Bool
  unfolding place materialize
  rewrite_file now fe dest = do
    content ← reads (λ w. materialize fe w.fabric)
    place now dest fe.mode content
    pure true

  -- One round of the loop over the files; it says whether the file was rewritten.
  unfoldable pub restore_file : ℕ → FileEntry → Exec World Bool
  unfolding rewrite_file create_parents needs_write
  restore_file now fe = do
    dest ← reads (λ w. resolve_dest w.tree fe.path)
    modify (λ w. record w { tree = create_parents [] dest w.tree })
    write ← reads (λ w. ok (needs_write fe (lookup dest w.tree)))
    if write then rewrite_file now fe dest else pure false

  unfoldable pub restore_files : ℕ → List FileEntry → Exec World (List Bytes)
  unfolding restore_file
  restore_files now [] = pure []
  restore_files now (fe ∷ fes) =
      let more = restore_files now fes in
      do
        written ← restore_file now fe
        restored ← more
        pure (if written then fe.path ∷ restored else restored)

pub record RevertReport : Type 0 where
  pub restored : List Bytes
  pub removed : List Bytes
  pub skipped_extra : List Bytes

-- A file or a symlink that is tracked and that the manifest does not name.
unfoldable pub is_extra : List Bytes → Names → Node → Bool
is_extra wanted names dir = false
is_extra wanted names _ = not (excluded names) && not (contains wanted (rel_str names))

-- What the walk finds that is extra, in its order.
unfoldable pub extras : List Bytes → Tree → List Names
unfolding is_extra
extras wanted [] = []
extras wanted ((names, node) ∷ tree) =
    let rest = extras wanted tree in if is_extra wanted names node then names ∷ rest else rest

-- `fs::remove_file` on each.
unfoldable pub remove_files : List Names → Tree → Tree
remove_files [] tree = tree
remove_files (n ∷ ns) tree = remove_files ns (erase n tree)

abbrev pub is_prefix : Names → Names → Bool
is_prefix [] ms = true
is_prefix (n ∷ ns) [] = false
is_prefix (n ∷ ns) (m ∷ ms) = n == m && is_prefix ns ms

-- Something stands below the directory.
abbrev pub has_children : Names → Tree → Bool
has_children d tree = any (λ (names, _). is_prefix d names && not (names == d)) tree

abbrev pub is_dir : Node → Bool
is_dir dir = true
is_dir _ = false

abbrev pub insert_deepest : Names → List Names → List Names
insert_deepest d [] = d ∷ []
insert_deepest d (e ∷ es) =
    if leb (length e) (length d) then d ∷ e ∷ es else e ∷ insert_deepest d es

-- The directories of the walk, the deepest first.
unfoldable pub deepest_dirs : Tree → List Names
deepest_dirs [] = []
deepest_dirs ((names, node) ∷ tree) =
    let rest = deepest_dirs tree in if is_dir node then insert_deepest names rest else rest

-- `fs::remove_dir` only succeeds on an empty directory.
unfoldable pub is_removable : Names → Tree → Bool
is_removable d tree = elim (lookup d tree) [
  | some dir ↦ not (excluded d || has_children d tree)
  | _ ↦ false
]

unfoldable pub remove_dirs : List Names → Tree → Tree
unfolding is_removable
remove_dirs [] tree = tree
remove_dirs (d ∷ ds) tree = remove_dirs ds (if is_removable d tree then erase d tree else tree)

unfoldable pub prune_empty_dirs : Tree → Tree
unfolding deepest_dirs remove_dirs
prune_empty_dirs tree = remove_dirs (deepest_dirs tree) tree

-- The walk after the files are in place, and the empty directories.
unfoldable pub tidy : List Bytes → Bool → Tree → Tree
unfolding extras remove_files prune_empty_dirs
tidy wanted keep_extra tree =
    prune_empty_dirs (if keep_extra then tree else remove_files (extras wanted tree) tree)

module _ (c : Crates) (z : Zstd) (j : TombstoneJson) where
  -- The loop that refuses purged content.
  unfoldable pub refuse_purged : List Tombstone → List FileEntry → Result (Unit {0})
  refuse_purged ts [] = ok tt
  refuse_purged ts (fe ∷ fes) =
      let rest = refuse_purged ts fes in
      if is_tombstoned c ts fe.path fe.content
      then err (corrupt "manifest contains purged content")
      else rest

  abbrev pub wanted_paths : Manifest → List Bytes
  wanted_paths m = map (λ f. f.path) m.files

  -- What `apply` does after the checks.
  unfoldable pub rewrite : ℕ → Bool → Manifest → Exec World RevertReport
  unfolding restore_files tidy
  rewrite now keep_extra m = do
    restored ← restore_files c z now m.files
    found ← reads (λ w. ok (map rel_str (extras (wanted_paths m) w.tree)))
    modify (λ w. record w { tree = tidy (wanted_paths m) keep_extra w.tree })
    pure (record {
      restored = restored;
      removed = if keep_extra then [] else found;
      skipped_extra = if keep_extra then found else [];
    })

  unfoldable pub apply : ℕ → Bool → Manifest → Exec World RevertReport
  unfolding rewrite refuse_purged
  apply now keep_extra m = do
    lift (validate m)
    ts ← reads (λ w. tombstones j w.fabric)
    lift (refuse_purged ts m.files)
    rewrite now keep_extra m
