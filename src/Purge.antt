-- ===== src/Purge.antt =====
-- src/purge.rs: tombstones. serde_json at the type `Tombstone` is a parameter.
use respawn.Base.{
  ℕ, Bytes, Bool, ◌||◌, Option, none, some, List, [], ◌∷◌, any, ◌==◌, list_eq, nat_eq,
  if◌then◌else◌,
}
use respawn.Errors.{Result, ok, err, corrupt, io, ◌>>=◌}
use respawn.Lines.{lines, trim}
use respawn.Crates.{Crates, hash_hex}
use respawn.Store.{Fabric}

pub record Tombstone : Type 0 where
  pub path : Bytes
  pub content : Bytes
  pub purge_id : Bytes
  pub ts : ℕ

pub record TombstoneJson : Type 0 where
  pub to_string : Tombstone → Option Bytes
  pub from_str : Bytes → Option Tombstone
  pub is_utf8 : Bytes → Bool

unfoldable pub parse_tombstones : TombstoneJson → List Bytes → Result (List Tombstone)
parse_tombstones j [] = ok []
parse_tombstones j (l ∷ ls) =
    let line = trim l in
    let rest = parse_tombstones j ls in
    if line == [] then rest else elim (j.from_str line) [
      | none ↦ err (corrupt "tombstone line unparsable")
      | some t ↦ (do ts ← rest; ok (t ∷ ts))
    ]

unfoldable pub tombstones : TombstoneJson → Fabric → Result (List Tombstone)
unfolding parse_tombstones
tombstones j s = elim s.purged_file [
  | none ↦ ok []
  | some file ↦
      if j.is_utf8 file
      then parse_tombstones j (lines file)
      else err (io "stream did not contain valid UTF-8")
]

-- The test of `is_purged` and of `apply`: a tombstone of this path, or of this content.
unfoldable pub is_tombstoned : Crates → List Tombstone → Bytes → Bytes → Bool
is_tombstoned c ts path content = any (λ t. t.path == path || t.content == hash_hex c content) ts

unfoldable pub is_purged : Crates → TombstoneJson → Bytes → Bytes → Fabric → Result Bool
unfolding is_tombstoned
is_purged c j path content s = do ts ← tombstones j s; ok (is_tombstoned c ts path content)
