-- ===== src/Crates.antt =====
-- The blake3 and hex crates, as the code uses them: `blake3::hash`, `hex::encode`, `hex::decode`;
-- and src/lib.rs: `hash_bytes`, `parse_hash`, `hash_hex`, `short`, `is_hash_name`.
pub mod Laws
use respawn.Base.{
  ℕ, ◌<◌, ◌*◌, Bytes, ◌≡◌, ◌≢◌, ◌⊎◌, inl, inr, Bool, true, ◌&&◌, ◌||◌, not, Option, none, some, All,
  length, all, leb, take, ◌==◌, nat_eq, if◌then◌else◌,
}
use respawn.Errors.{Result, ok, err, bad_hash}

pub record Crates : Type 0 where
  pub blake3 : Bytes → Bytes
  pub hex_encode : Bytes → Bytes
  pub hex_decode : Bytes → Option Bytes

abbrev pub IsBytes : Bytes → Type 0
IsBytes = All (λ b. b < 256)

-- A `Hash` of the program is `[u8; 32]`.
pub record IsHash (h : Bytes) : Type 0 where
  pub bytes : IsBytes h
  pub size : length h ≡ 32

abbrev pub is_lower_hex : ℕ → Bool
is_lower_hex b = (leb b'0' b && leb b b'9') || (leb b'a' b && leb b b'f')

-- What the two crates document.
pub record IsLawful (c : Crates) : Type 0 where
  pub blake3-IsHash : (b : Bytes) → IsHash (c.blake3 b)
  pub decode-encode : (b : Bytes) → IsBytes b → c.hex_decode (c.hex_encode b) ≡ some b
  pub length-encode : (b : Bytes) → length (c.hex_encode b) ≡ 2 * length b
  pub encode_digits : (b : Bytes) → IsBytes b → all is_lower_hex (c.hex_encode b) ≡ true

-- Two texts among those of `P` with one BLAKE3 hash. That some two texts have one hash is always
-- so; a theorem names the texts at hand.
pub record Collision (c : Crates) (P : Bytes → Type 0) : Type 0 where
  pub one : Bytes
  pub other : Bytes
  pub one_is : P one
  pub other_is : P other
  pub differ : one ≢ other
  pub same_hash : c.blake3 one ≡ c.blake3 other

module _ (c : Crates) where
  abbrev pub hash_bytes : Bytes → Bytes
  hash_bytes = c.blake3

  unfoldable pub parse_hash : Bytes → Result Bytes
  parse_hash s = elim (c.hex_decode s) [
    | none ↦ err (bad_hash s)
    | some arr ↦ if length arr == 32 then ok arr else err (bad_hash s)
  ]

  abbrev pub hash_hex : Bytes → Bytes
  hash_hex = c.hex_encode

  abbrev pub short : Bytes → Bytes
  short h = c.hex_encode (take 6 h)

abbrev is_hexdigit : ℕ → Bool
is_hexdigit b =
    (leb b'0' b && leb b b'9') || (leb b'a' b && leb b b'f') || (leb b'A' b && leb b b'F')

abbrev is_uppercase : ℕ → Bool
is_uppercase b = leb b'A' b && leb b b'Z'

unfoldable pub is_hash_name : Bytes → Bool
is_hash_name name = length name == 64 && all (λ b. is_hexdigit b && not (is_uppercase b)) name
