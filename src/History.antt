-- ===== src/History.antt =====
-- src/snapshot.rs: `resolve`, of a reference in ASCII.
use respawn.Base.{
  ℕ, Bytes, text, Bool, ◌||◌, ◌&&◌, not, none, some, List, [], ◌∷◌, length, all, ltb, leb, ◌==◌,
  list_eq, nat_eq, if◌then◌else◌,
}
use respawn.Base.Dict.{keys}
use respawn.Errors.{Result, ok, err, corrupt, bad_hash, ◌>>=◌}
use respawn.Crates.{Crates, parse_hash, is_hash_name}
use respawn.Store.{Fabric, head}
use respawn.Snapshot.{starts_with}
use respawn.Anchor.{to_lower}

abbrev is_hexdigit : ℕ → Bool
is_hexdigit b =
    (leb b'0' b && leb b b'9') || (leb b'a' b && leb b b'f') || (leb b'A' b && leb b b'F')

module _ (c : Crates) where
  -- The loop over the directory `manifests`.
  unfoldable pub prefix_hits : Bytes → List Bytes → Result (List Bytes)
  prefix_hits prefix [] = ok []
  prefix_hits prefix (full ∷ names) =
      let rest = prefix_hits prefix names in
      if starts_with prefix full && is_hash_name full
      then (do h ← parse_hash c full; hs ← rest; ok (h ∷ hs))
      else rest

  abbrev one_hit : Bytes → List Bytes → Result Bytes
  one_hit reference [] = err (bad_hash reference)
  one_hit reference (h ∷ []) = ok h
  one_hit reference (h ∷ g ∷ hs) = err (bad_hash reference)

  unfoldable pub resolve : Bytes → Fabric → Result Bytes
  unfolding prefix_hits
  resolve reference s =
      if reference == text "head" || reference == text "HEAD"
      then (do o ← head c s; elim o [ none ↦ err (corrupt "no HEAD snapshot") | some h ↦ ok h ])
      else if length reference == 64
      then parse_hash c reference
      else if ltb (length reference) 4 || not (all is_hexdigit (to_lower reference))
      then err (bad_hash reference)
      else do hits ← prefix_hits (to_lower reference) (keys s.manifests); one_hit reference hits
