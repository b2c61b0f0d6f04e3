-- ===== src/Crates/Laws.antt =====
-- Hashes and their names in the store.
use respawn.Base.{
  Bytes, ◌≡◌, refl, ◌⊎◌, inl, inr, true, ◌&&◌, not, [], ◌∷◌, arith, all, nat_eq, list_eq,
}
use respawn.Errors.{ok}
use respawn.Crates.{
  Crates, IsLawful, IsHash, Collision, is_lower_hex, hash_hex, parse_hash, is_hash_name,
  is_hexdigit, is_uppercase,
}

all_digits :
    (s : Bytes)
    → all is_lower_hex s ≡ true
    → all (λ b. is_hexdigit b && not (is_uppercase b)) s ≡ true
all_digits [] h = refl
all_digits (b ∷ s) h = ground (arith, all_digits s)

module _ (c : Crates) (L : IsLawful c) where
  -- The name of a hash in the store reads back as the hash, and has the shape of a name.
  pub parse_hash-hash_hex :
      (h : Bytes)
      → IsHash h
      → (parse_hash c (hash_hex c h) ≡ ok h) × (is_hash_name (hash_hex c h) ≡ true)
  unfolding parse_hash is_hash_name
  parse_hash-hash_hex h i = (
    ground (arith, L.decode-encode h i.bytes, i.size),
    ground
        (arith, L.length-encode h, i.size, all_digits (hash_hex c h) (L.encode_digits h i.bytes)),
  )

  pub hash_hex-injective : (g h : Bytes) → IsHash g → IsHash h → hash_hex c g ≡ hash_hex c h → g ≡ h
  hash_hex-injective g h i j e = cc (L.decode-encode g i.bytes, L.decode-encode h j.bytes)

  -- Texts whose hashes have one name are equal, or collide.
  pub eq_or_Collision :
      (P : Bytes → Type 0) (a b : Bytes)
      → P a
      → P b
      → hash_hex c (c.blake3 a) ≡ hash_hex c (c.blake3 b)
      → (a ≡ b) ⊎ Collision c P
  eq_or_Collision P a b p q e = elim (list_eq.dec a b) [
    | yes same ↦ inl same
    | no n ↦ inr (record {
      one = a;
      other = b;
      one_is = p;
      other_is = q;
      differ = n;
      same_hash = hash_hex-injective _ _ (L.blake3-IsHash a) (L.blake3-IsHash b) e;
    })
  ]
