-- ===== src/Store.antt =====
-- src/store.rs: the state of a fabric on disk and the object store in it. The directories
-- `objects` and `manifests` map the name of a file, `<2-hex><62-hex>`, to its bytes; the other
-- files of `.respawn/` are options, `none` where the file is missing. zstd is a parameter.
-- An operation of the file system that fails (a full disk, a missing right) is not modelled.
pub mod Laws
use respawn.Base.{
  ℕ, suc, ◌+◌, ◌*◌, ◌≤◌, Bytes, text, ◌≡◌, Bool, true, false, Option, none, some, [], take, length,
  ltb, ◌==◌, list_eq, nat_eq, if◌then◌else◌,
}
use respawn.Base.Dict.{Dict, lookup, insert, has}
use respawn.Errors.{Result, ok, err, io, corrupt, missing_object, locked, ◌>>=◌}
use respawn.Exec.{Exec}
use respawn.Lines.{trim}
use respawn.Crates.{Crates, hash_bytes, hash_hex, parse_hash}

-- `locked` says that another process holds the lock.
pub record Fabric : Type 0 where
  pub objects : Dict Bytes Bytes
  pub manifests : Dict Bytes Bytes
  pub head_file : Option Bytes
  pub audit_log : Option Bytes
  pub purged_file : Option Bytes
  pub fabric_id_file : Option Bytes
  pub last_anchor_file : Option Bytes
  pub secret_file : Option Bytes
  pub fleet_key_file : Option Bytes
  pub fleet_seen_file : Option Bytes
  pub remotes : Dict Bytes Bytes
  pub is_locked : Bool

-- `zstd::encode_all`, and reading at most so many bytes from a `zstd::Decoder`.
pub record Zstd : Type 0 where
  pub encode_all : Bytes → Option Bytes
  pub read_decoded : ℕ → Bytes → Option Bytes

-- Reading what was compressed gives the beginning of the original.
pub record IsLawful (z : Zstd) : Type 0 where
  pub read-encode :
      (data_bytes packed : Bytes) (n : ℕ)
      → z.encode_all data_bytes ≡ some packed
      → z.read_decoded n packed ≡ some (take n data_bytes)

abbrev pub max_object_size : ℕ
max_object_size = 256 * 1024

-- `Store::init`, on a directory without a fabric.
abbrev pub init : Fabric
init = record {
  objects = [];
  manifests = [];
  head_file = some [];
  audit_log = none;
  purged_file = none;
  fabric_id_file = none;
  last_anchor_file = none;
  secret_file = none;
  fleet_key_file = none;
  fleet_seen_file = none;
  remotes = [];
  is_locked = false;
}

unfoldable pub try_lock : Fabric → Result (Unit {0})
try_lock s =
    if s.is_locked then err (locked "another respawn process is using this worktree") else ok tt

module _ (c : Crates) (z : Zstd) where
  unfoldable pub put_object : Bytes → Exec Fabric Bytes
  put_object content s =
      let h = hash_bytes c content in
      if has (hash_hex c h) s.objects then (ok h, s) else elim (z.encode_all content) [
        | none ↦ (err (io "zstd"), s)
        | some packed ↦ (ok h, record s { objects = insert (hash_hex c h) packed s.objects })
      ]

  unfoldable pub put_object_as : Bytes → Bytes → Exec Fabric (Unit {0})
  unfolding put_object
  put_object_as h content s =
      if hash_bytes c content == h
      then (let (r, s') = put_object content s in ((r >>= λ _. ok tt), s'))
      else (err (corrupt "object failed content verification"), s)

  unfoldable pub get_object : Bytes → Fabric → Result Bytes
  get_object h s = elim (lookup (hash_hex c h) s.objects) [
    | none ↦ err (missing_object h)
    | some packed ↦ elim (z.read_decoded (max_object_size + 1) packed) [
      | none ↦ err (io "zstd")
      | some content ↦
          if ltb max_object_size (length content)
          then err (corrupt "object exceeds chunk bound")
          else if hash_bytes c content == h
          then ok content
          else err (corrupt "object failed content verification")
    ]
  ]

module _ (c : Crates) where
  unfoldable pub has_object : Bytes → Fabric → Bool
  has_object h s = has (hash_hex c h) s.objects

  unfoldable pub put_manifest : Bytes → Exec Fabric Bytes
  put_manifest content s =
      let h = hash_bytes c content in
      if has (hash_hex c h) s.manifests
      then (ok h, s)
      else (ok h, record s { manifests = insert (hash_hex c h) content s.manifests })

  unfoldable pub put_manifest_as : Bytes → Bytes → Exec Fabric (Unit {0})
  unfolding put_manifest
  put_manifest_as h content s =
      if hash_bytes c content == h
      then (ok tt, (put_manifest content s).1)
      else (err (corrupt "manifest hash mismatch"), s)

  unfoldable pub get_manifest_bytes : Bytes → Fabric → Result Bytes
  get_manifest_bytes h s = elim (lookup (hash_hex c h) s.manifests) [
    | none ↦ err (missing_object h)
    | some content ↦ ok content
  ]

  unfoldable pub has_manifest : Bytes → Fabric → Bool
  has_manifest h s = has (hash_hex c h) s.manifests

  abbrev parse_head : Bytes → Result (Option Bytes)
  parse_head s = if s == [] then ok none else (do h ← parse_hash c s; ok (some h))

  -- A missing HEAD file means no snapshots.
  unfoldable pub head : Fabric → Result (Option Bytes)
  head s = elim s.head_file [ none ↦ ok none | some content ↦ parse_head (trim content) ]

  abbrev pub head_content : Option Bytes → Bytes
  head_content none = []
  head_content (some h) = hash_hex c h

  unfoldable pub set_head : Option Bytes → Fabric → Fabric
  set_head h s = record s { head_file = some (head_content h) }
