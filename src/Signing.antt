-- ===== src/Signing.antt =====
-- The ed25519 crate as the code uses it, and src/keychain.rs on a system other than macOS, where
-- the key is the file `anchor.secret` and nothing else.
use respawn.Base.{
  ℕ, Bytes, Bool, true, false, Option, none, some, length, ◌==◌, list_eq, nat_eq, if◌then◌else◌,
  ◌≡◌, String,
}
use respawn.Errors.{Result, ok, err, corrupt, refuse_if, ◌>>=◌, ◌>>◌}
use respawn.Lines.{trim}
use respawn.Crates.{Crates, IsBytes, IsHash}
use respawn.Store.{Fabric}

pub record Ed25519 : Type 0 where
  pub public_key : Bytes → Bytes
  pub sign : Bytes → Bytes → Bytes
  pub is_key : Bytes → Bool
  pub verify : Bytes → Bytes → Bytes → Bool

-- What the crate documents: the public key of a secret of 32 bytes is a key, and it verifies what
-- the secret signs.
pub record IsLawful (d : Ed25519) : Type 0 where
  pub public_bytes : (secret : Bytes) → length secret ≡ 32 → IsHash (d.public_key secret)
  pub public_valid : (secret : Bytes) → length secret ≡ 32 → d.is_key (d.public_key secret) ≡ true
  pub signature_bytes : (secret message : Bytes) → IsBytes (d.sign secret message)
  pub signature_size : (secret message : Bytes) → length (d.sign secret message) ≡ 64
  pub verify-sign :
      (secret message : Bytes)
      → length secret ≡ 32
      → d.verify (d.public_key secret) message (d.sign secret message) ≡ true

module _ (c : Crates) where
  -- `hex::decode` and `try_into` of an array of this size.
  unfoldable pub decode_sized : String → ℕ → Bytes → Result Bytes
  decode_sized message size s = elim (c.hex_decode s) [
    | none ↦ err (corrupt message)
    | some b ↦ if length b == size then ok b else err (corrupt message)
  ]

  module _ (d : Ed25519) where
    -- The steps from the key, the signature and the message to the check, as the verifiers of
    -- anchors, certificates and orders all take them.
    unfoldable pub check_signature : Bytes → Bytes → Bytes → Result (Unit {0})
    unfolding decode_sized
    check_signature pubkey sig payload = do
      pk ← decode_sized "pubkey" 32 pubkey
      refuse_if (if d.is_key pk then false else true) (corrupt "not a valid ed25519 key")
      raw ← decode_sized "signature" 64 sig
      if d.verify pk payload raw then ok tt else err (corrupt "signature invalid")

  -- `read_secret_file`
  unfoldable pub read_secret_file : Fabric → Result (Option Bytes)
  unfolding decode_sized
  read_secret_file s = elim s.secret_file [
    | none ↦ ok none
    | some content ↦ (do raw ← decode_sized "anchor secret" 32 (trim content); ok (some raw))
  ]

  -- `get` of the key.
  unfoldable pub get_key : Fabric → Result Bytes
  unfolding read_secret_file
  get_key s = do
    o ← read_secret_file s
    elim o [ none ↦ err (corrupt "no anchor key") | some raw ↦ ok raw ]

  abbrev pub key_exists : Fabric → Bool
  key_exists s = elim s.secret_file [ none ↦ false | some content ↦ true ]

  -- `put` of the key.
  unfoldable pub put_key : Bytes → Fabric → Fabric
  put_key raw s = record s { secret_file = some (c.hex_encode raw) }
