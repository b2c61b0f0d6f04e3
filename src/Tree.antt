-- ===== src/Tree.antt =====
-- The worktree: what stands at each path below its root, by the names of the path, in the order
-- in which a walk visits it. The fabric's own directory is not part of it.
use respawn.Base.{ℕ, Bytes, List}
use respawn.Base.Dict.{Dict}
use respawn.Store.{Fabric}

pub record Stat : Type 0 where
  pub mode : ℕ
  pub mtime_secs : ℕ
  pub mtime_nanos : ℕ

pub data Node : Type 0 where
  file : Bytes → Stat → Node
  symlink : Bytes → Node
  dir : Node

abbrev pub Names : Type 0
Names = List Bytes

abbrev pub Tree : Type 0
Tree = Dict Names Node

pub record World : Type 0 where
  pub fabric : Fabric
  pub tree : Tree
