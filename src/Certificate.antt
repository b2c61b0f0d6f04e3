-- ===== src/Certificate.antt =====
-- src/purge.rs: `verify_cert`. serde_json at the two types of a certificate is a parameter; the
-- file of a certificate is its bytes, and the message of success its path.
pub mod Genuine
use respawn.Base.{
  ℕ, Bytes, text, Bool, true, false, not, ◌&&◌, Option, none, some, List, any, ◌==◌, list_eq,
  nat_eq, ◌≡◌, inl, inr, arith, Bool-cases,
}
use respawn.Errors
use respawn.Errors.{Result, ok, err, corrupt, refuse_if, Result-cases}
use respawn.Exec.{Exec, pure, reads, lift, ◌>>=◌, ◌>>◌}
use respawn.Crates.{Crates}
use respawn.Store.{Fabric}
use respawn.Purge.{Tombstone, TombstoneJson, tombstones}
use respawn.Signing.{Ed25519, check_signature}
use respawn.Anchor.{fabric_id, parse}

pub record PurgePayload : Type 0 where
  pub kind : Bytes
  pub version : ℕ
  pub fabric_id : Bytes
  pub path : Bytes
  pub content : Bytes
  pub chunks_removed : ℕ
  pub chunks_retained_shared : ℕ
  pub manifests_touched : ℕ
  pub audit_len : ℕ
  pub audit_tip : Bytes
  pub ts : ℕ

pub record PurgeCert : Type 0 where
  pub format : Bytes
  pub pubkey : Bytes
  pub payload : Bytes
  pub sig : Bytes

pub record CertJson : Type 0 where
  pub cert_from_slice : Bytes → Option PurgeCert
  pub payload_from_str : Bytes → Option PurgePayload

abbrev pub is_other_signer : Option Bytes → Bytes → Bool
is_other_signer none key = false
is_other_signer (some pin) key = not (key == pin)

-- A tombstone of the path and the content that the certificate names.
abbrev pub is_recorded : List Tombstone → PurgePayload → Bool
is_recorded ts payload = any (λ t. t.path == payload.path && t.content == payload.content) ts

module _ (c : Crates) (d : Ed25519) (o : CertJson) where
  -- The checks of the certificate alone.
  unfoldable pub checked_cert : Bytes → Option Bytes → Result PurgePayload
  checked_cert file pin = Errors.◌>>=◌ (parse (o.cert_from_slice file)) λ cert.
      Errors.◌>>◌
        (refuse_if (not (cert.format == text "respawn-purge/v1"))
          (corrupt "unknown purge cert format"))
        (Errors.◌>>=◌ (parse (o.payload_from_str cert.payload)) λ payload.
          Errors.◌>>◌
            (refuse_if (not (payload.kind == text "respawn-purge"))
              (corrupt "payload kind mismatch"))
            (Errors.◌>>◌
              (refuse_if (is_other_signer pin cert.pubkey) (corrupt "purge cert signer mismatch"))
              (Errors.◌>>◌ (check_signature c d cert.pubkey cert.sig cert.payload) (ok payload))))

  unfoldable pub verify_cert : TombstoneJson → Bytes → Bytes → Option Bytes → Exec Fabric Bytes
  unfolding checked_cert
  verify_cert t fresh file pin = do
    payload ← lift (checked_cert file pin)
    id ← fabric_id fresh
    lift
        (refuse_if (not (payload.fabric_id == id)) (corrupt "purge cert belongs to another fabric"))
    ts ← reads (tombstones t)
    lift (refuse_if (not (is_recorded ts payload)) (corrupt "no matching tombstone"))
    pure payload.path
