-- ===== src/Revert/Tidy.antt =====
-- What `apply` removes from the worktree after the files are in place.
use respawn.Base.{
  Bytes, Bool, true, false, none, some, List, [], ◌∷◌, contains, ◌≡◌, refl, list_eq, nat_eq,
  if◌then◌else◌, arith,
}
use respawn.Base.Dict.{lookup, erase, lookup-erase}
use respawn.Paths.{rel_str}
use respawn.Tree.{Stat, Node, file, symlink, dir, Names, Tree}
use respawn.Revert.{
  is_extra, extras, remove_files, is_removable, remove_dirs, prune_empty_dirs, deepest_dirs, tidy,
}

lookup-remove_files :
    (ns : List Names) (tree : Tree) (names : Names)
    → lookup names (remove_files ns tree) ≡ (if contains ns names then none else lookup names tree)
unfolding remove_files
lookup-remove_files [] tree names = refl
lookup-remove_files (n ∷ ns) tree names =
    ground (arith, lookup-remove_files ns (erase n tree) names, lookup-erase names n tree)

-- What is at a path and extra is found by the walk.
contains-extras :
    (wanted : List Bytes) (tree : Tree) (names : Names) (node : Node)
    → lookup names tree ≡ some node
    → is_extra wanted names node ≡ true
    → contains (extras wanted tree) names ≡ true
unfolding extras lookup
contains-extras wanted [] names node h e = absurd (cc)
contains-extras wanted ((n, v) ∷ tree) names node h e =
    ground (arith, contains-extras wanted tree names node)

extras-wanted :
    (wanted : List Bytes) (tree : Tree) (names : Names)
    → contains wanted (rel_str names) ≡ true
    → contains (extras wanted tree) names ≡ false
unfolding extras is_extra
extras-wanted wanted [] names h = refl
extras-wanted wanted ((n, dir) ∷ tree) names h = extras-wanted wanted tree names h
extras-wanted wanted ((n, file b st) ∷ tree) names h =
    ground (arith, extras-wanted wanted tree names h)
extras-wanted wanted ((n, symlink t) ∷ tree) names h =
    ground (arith, extras-wanted wanted tree names h)

-- Removing directories leaves no new node.
remove_dirs-old :
    (ds : List Names) (tree : Tree) (names : Names) (node : Node)
    → lookup names (remove_dirs ds tree) ≡ some node
    → lookup names tree ≡ some node
unfolding remove_dirs
remove_dirs-old [] tree names node h = h
remove_dirs-old (d ∷ ds) tree names node h =
    let more =
      remove_dirs-old ds (if is_removable d tree then erase d tree else tree) names node h in
    ground (arith, lookup-erase names d tree)

is_removable-dir : (d : Names) (tree : Tree) → is_removable d tree ≡ true → lookup d tree ≡ some dir
unfolding is_removable
is_removable-dir d tree h = ground arith

-- What is no directory stays.
remove_dirs_keeps :
    (ds : List Names) (tree : Tree) (names : Names) (content : Bytes) (stat : Stat)
    → lookup names tree ≡ some (file content stat)
    → lookup names (remove_dirs ds tree) ≡ some (file content stat)
unfolding remove_dirs
remove_dirs_keeps [] tree names content stat h = h
remove_dirs_keeps (d ∷ ds) tree names content stat h =
    remove_dirs_keeps ds (if is_removable d tree then erase d tree else tree) names content stat
      (ground (arith, lookup-erase names d tree, is_removable-dir d tree))

module _ (wanted : List Bytes) (keep_extra : Bool) (tree : Tree) (names : Names) where
  pub tidy-old :
      (node : Node)
      → lookup names (tidy wanted keep_extra tree) ≡ some node
      → lookup names tree ≡ some node
  unfolding tidy prune_empty_dirs
  tidy-old node h =
      let kept = if keep_extra then tree else remove_files (extras wanted tree) tree in
      let old = remove_dirs-old (deepest_dirs kept) kept names node h in
      ground (arith, lookup-remove_files (extras wanted tree) tree names)

  pub tidy_keeps :
      (content : Bytes) (stat : Stat)
      → contains wanted (rel_str names) ≡ true
      → lookup names tree ≡ some (file content stat)
      → lookup names (tidy wanted keep_extra tree) ≡ some (file content stat)
  unfolding tidy prune_empty_dirs
  tidy_keeps content stat want h =
      let kept = if keep_extra then tree else remove_files (extras wanted tree) tree in
      remove_dirs_keeps (deepest_dirs kept) kept names content stat (
        ground (
          arith,
          lookup-remove_files (extras wanted tree) tree names,
          extras-wanted wanted tree names want,
        ))

pub tidy_removes :
    (wanted : List Bytes) (tree : Tree) (names : Names) (node : Node)
    → lookup names (tidy wanted false tree) ≡ some node
    → is_extra wanted names node ≡ false
unfolding tidy prune_empty_dirs
tidy_removes wanted tree names node h =
    let kept = remove_files (extras wanted tree) tree in
    let old = remove_dirs-old (deepest_dirs kept) kept names node h in
    let tidied = lookup-remove_files (extras wanted tree) tree names in
    ground (arith, contains-extras wanted tree names node)
