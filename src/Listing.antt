-- ===== src/Listing.antt =====
-- src/snapshot.rs: `list`. The directories of manifests are read in the order of the dictionary.
pub mod Order
pub mod Ends
pub mod Complete
use respawn.Base.{
  ℕ, zero, suc, ◌+◌, Bytes, Bool, true, false, Option, none, some, List, [], ◌∷◌, ◌++◌, contains,
  length, ltb, leb, ◌==◌, list_eq, nat_eq, if◌then◌else◌,
}
use respawn.Base.Dict.{keys}
use respawn.Base.Sort.{sort_with}
use respawn.Errors.{Result, ok, err, ◌>>=◌}
use respawn.Crates.{Crates, parse_hash, is_hash_name}
use respawn.Store.{Fabric, head}
use respawn.Manifest.{Manifest, ManifestJson, load}

abbrev pub Entry : Type 0
Entry = Bytes × Manifest

abbrev pub ids : List Entry → List Bytes
ids [] = []
ids ((id, m) ∷ es) = id ∷ ids es

-- Newest first, entries of one time in their order.
abbrev pub newest_first : Entry → Entry → Bool
newest_first (i, m) (k, n) = leb n.timestamp_secs m.timestamp_secs

module _ (c : Crates) (j : ManifestJson) (s : Fabric) where
  -- The chain of HEAD, in at most `fuel` rounds; one round more than there are manifests is enough.
  unfoldable pub walk_parents : ℕ → Option Bytes → List Bytes → Result (List Entry)
  walk_parents zero cur seen = ok []
  walk_parents (suc fuel) none seen = ok []
  walk_parents (suc fuel) (some id) seen = elim (contains seen id) [
    | true ↦ ok []
    | false ↦ elim (load c j id s) [
      | err e ↦ err e
      | ok m ↦ (do rest ← walk_parents fuel m.parent (id ∷ seen); ok ((id, m) ∷ rest))
    ]
  ]

  abbrev pub keep_loaded : Result Manifest → Bool → Bytes → List Entry → List Entry
  keep_loaded (err e) old id rest = rest
  keep_loaded (ok m) true id rest = rest
  keep_loaded (ok m) false id rest = (id, m) ∷ rest

  -- The manifests whose names are given and that were not seen before.
  unfoldable pub orphans : List Bytes → List Bytes → Result (List Entry)
  orphans [] seen = ok []
  orphans (full ∷ names) seen = elim (is_hash_name full) [
    | false ↦ orphans names seen
    | true ↦ elim (parse_hash c full) [
      | err e ↦ err e
      | ok id ↦ (do
        rest ← orphans names (id ∷ seen)
        ok (keep_loaded (load c j id s) (contains seen id) id rest))
    ]
  ]

  unfoldable pub list : Result (List Entry)
  unfolding walk_parents orphans
  list = do
    cur ← head c s
    chain ← walk_parents (suc (length s.manifests)) cur []
    others ← orphans (keys s.manifests) (ids chain)
    ok (sort_with newest_first (chain ++ others))
