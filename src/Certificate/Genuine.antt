-- ===== src/Certificate/Genuine.antt =====
-- What a certificate is that `verify_cert` accepts.
use mathlib.Core.List.{Memᴰ}
use mathlib.Core.List.Memᴰ.{head, tail}
use mathlib.Core.Option.{some-injective}
use respawn.Base.{
  ℕ, Bytes, String, text, true, false, ◌&&◌, Option, none, some, List, [], ◌∷◌, length, ◌==◌,
  ==_iff, list_eq, nat_eq, ◌≡◌, refl, sym, ap, ◌∙◌, inl, inr, arith, Bool-cases, Option-cases,
}
use respawn.Errors.{Result, ok, err, Result-cases}
use respawn.Crates.{Crates}
use respawn.Store.{Fabric}
use respawn.Purge.{Tombstone, TombstoneJson, tombstones}
use respawn.Signing.{Ed25519, check_signature, decode_sized}
use respawn.Anchor.{fabric_id}
use respawn.Certificate.{
  PurgePayload, PurgeCert, CertJson, is_other_signer, is_recorded, checked_cert, verify_cert,
}

module _ (c : Crates) (d : Ed25519) where
  -- The hex of a key and of a signature of the payload by this key.
  pub record IsSigned (pubkey sig payload : Bytes) : Type 0 where
    pub key : Bytes
    pub signature : Bytes
    pub key_hex : c.hex_decode pubkey ≡ some key
    pub key_size : length key ≡ 32
    pub is_key : d.is_key key ≡ true
    pub signature_hex : c.hex_decode sig ≡ some signature
    pub signature_size : length signature ≡ 64
    pub verified : d.verify key payload signature ≡ true

  decode_sized-eq_ok :
      (message : String) (size : ℕ) (s b : Bytes)
      → decode_sized c message size s ≡ ok b
      → (c.hex_decode s ≡ some b) × (length b ≡ size)
  unfolding decode_sized
  decode_sized-eq_ok message size s b e = ground arith

  check_signature-IsSigned :
      (pubkey sig payload : Bytes)
      → check_signature c d pubkey sig payload ≡ ok tt
      → IsSigned pubkey sig payload
  unfolding check_signature
  check_signature-IsSigned pubkey sig payload e =
      elim (Result-cases (decode_sized c "pubkey" 32 pubkey)) [
        | inr (bad, p) ↦ absurd (cc (rw p at e))
        | inl (key, p) ↦ elim (Bool-cases (d.is_key key)) [
          | inr bad ↦ absurd (cc (rw (p, bad) at e))
          | inl valid ↦ elim (Result-cases (decode_sized c "signature" 64 sig)) [
            | inr (bad, q) ↦ absurd (cc (rw (p, valid, q) at e))
            | inl (signature, q) ↦ elim (Bool-cases (d.verify key payload signature)) [
              | inr bad ↦ absurd (cc (rw (p, valid, q, bad) at e))
              | inl verified ↦
                  let (key_hex, key_size) = decode_sized-eq_ok "pubkey" 32 pubkey key p in
                  let (sig_hex, sig_size) = decode_sized-eq_ok "signature" 64 sig signature q in
                  record {
                    key = key;
                    signature = signature;
                    key_hex = key_hex;
                    key_size = key_size;
                    is_key = valid;
                    signature_hex = sig_hex;
                    signature_size = sig_size;
                    verified = verified;
                  }
            ]
          ]
        ]
      ]

  -- The file is a purge certificate with this payload, signed by the key that it names, and by the
  -- pinned key where there is one.
  pub record IsGenuine (o : CertJson) (file : Bytes) (pin : Option Bytes) (payload : PurgePayload)
      : Type 0 where
    pub cert : PurgeCert
    pub parsed : o.cert_from_slice file ≡ some cert
    pub format : cert.format ≡ text "respawn-purge/v1"
    pub payload_parsed : o.payload_from_str cert.payload ≡ some payload
    pub kind : payload.kind ≡ text "respawn-purge"
    pub pinned : (key : Bytes) → pin ≡ some key → cert.pubkey ≡ key
    pub signed : IsSigned cert.pubkey cert.sig cert.payload

  not_other_signer :
      (pin : Option Bytes) (pubkey : Bytes)
      → is_other_signer pin pubkey ≡ false
      → (key : Bytes) → pin ≡ some key
      → pubkey ≡ key
  not_other_signer none pubkey e key p = absurd (cc)
  not_other_signer (some k) pubkey e key p =
      let same : (pubkey == k) ≡ true = ground arith in (==_iff _ _).0 same ∙ some-injective _ _ p

  payload_of : PurgePayload → Result PurgePayload → PurgePayload
  payload_of p (ok q) = q
  payload_of p (err e) = p

  checked_cert-IsGenuine :
      (o : CertJson) (file : Bytes) (pin : Option Bytes) (payload : PurgePayload)
      → checked_cert c d o file pin ≡ ok payload
      → IsGenuine o file pin payload
  unfolding checked_cert payload_of
  checked_cert-IsGenuine o file pin payload e = elim (Option-cases (o.cert_from_slice file)) [
    | inl bad ↦ absurd (cc (rw (checked_cert, bad) at e))
    | inr (cert, p) ↦ elim (Bool-cases (cert.format == text "respawn-purge/v1")) [
      | inr bad ↦ absurd (cc (rw (checked_cert, p, bad) at e))
      | inl format ↦ elim (Option-cases (o.payload_from_str cert.payload)) [
        | inl bad ↦ absurd (cc (rw (checked_cert, p, format, bad) at e))
        | inr (found, q) ↦ elim (Bool-cases (found.kind == text "respawn-purge")) [
          | inr bad ↦ absurd (cc (rw (checked_cert, p, format, q, bad) at e))
          | inl kind ↦ elim (Bool-cases (is_other_signer pin cert.pubkey)) [
            | inl bad ↦ absurd (cc (rw (checked_cert, p, format, q, kind, bad) at e))
            | inr pinned ↦
                elim (Result-cases (check_signature c d cert.pubkey cert.sig cert.payload)) [
                  | inr (bad, r) ↦
                      absurd (cc (rw (checked_cert, p, format, q, kind, pinned, r) at e))
                  | inl (_, r) ↦
                      let same : found ≡ payload =
                        ap (payload_of found)
                          (rw (checked_cert, p, format, q, kind, pinned, r) at e) in
                      record {
                        cert = cert;
                        parsed = p;
                        format = (==_iff _ _).0 format;
                        payload_parsed = q ∙ ap some same;
                        kind = sym (ap (λ x. x.kind) same) ∙ (==_iff _ _).0 kind;
                        pinned = not_other_signer pin cert.pubkey pinned;
                        signed = check_signature-IsSigned cert.pubkey cert.sig cert.payload r;
                      }
                ]
          ]
        ]
      ]
    ]
  ]

-- One of the tombstones is of this path and content.
pub record IsTombstoned (ts : List Tombstone) (path content : Bytes) : Type 0 where
  pub tombstone : Tombstone
  pub listed : Memᴰ tombstone ts
  pub same_path : tombstone.path ≡ path
  pub same_content : tombstone.content ≡ content

is_recorded-IsTombstoned :
    (ts : List Tombstone) (payload : PurgePayload)
    → is_recorded ts payload ≡ true
    → IsTombstoned ts payload.path payload.content
is_recorded-IsTombstoned [] payload e = absurd (cc)
is_recorded-IsTombstoned (t ∷ ts) payload e =
    elim (Bool-cases (t.path == payload.path && t.content == payload.content)) [
      | inl here ↦
          let path : (t.path == payload.path) ≡ true = ground arith in
          let content : (t.content == payload.content) ≡ true = ground arith in
          record {
            tombstone = t;
            listed = head refl;
            same_path = (==_iff _ _).0 path;
            same_content = (==_iff _ _).0 content;
          }
      | inr other ↦
          let later = is_recorded-IsTombstoned ts payload (ground arith) in
          record {
            tombstone = later.tombstone;
            listed = tail later.listed;
            same_path = later.same_path;
            same_content = later.same_content;
          }
    ]

module _ (c : Crates) (d : Ed25519) (o : CertJson) where
  -- A certificate that verify_cert accepts has the right format and kind, carries a signature of
  -- its payload by the key that it names, which is the pinned one if there is one, names this
  -- fabric, and the fabric has a tombstone of its path and content.
  pub verify_cert-IsGenuine :
      (t : TombstoneJson) (fresh file path : Bytes) (pin : Option Bytes) (s : Fabric)
      → (verify_cert c d o t fresh file pin s).0 ≡ ok path
      → (payload : PurgePayload) × (ts : List Tombstone) × IsGenuine c d o file pin payload
        × ((fabric_id fresh s).0 ≡ ok payload.fabric_id)
        × (tombstones t (fabric_id fresh s).1 ≡ ok ts)
        × IsTombstoned ts payload.path payload.content
        × (payload.path ≡ path)
  unfolding verify_cert
  verify_cert-IsGenuine t fresh file path pin s e =
      elim (Result-cases (checked_cert c d o file pin)) [
        | inr (f, p) ↦ absurd (cc (rw p at e))
        | inl (payload, p) ↦ elim (Result-cases (fabric_id fresh s).0) [
          | inr (f, q) ↦ absurd (cc (rw (p, q) at e))
          | inl (id, q) ↦ elim (Bool-cases (payload.fabric_id == id)) [
            | inr other ↦ absurd (cc (rw (p, q, other) at e))
            | inl same ↦ elim (Result-cases (tombstones t (fabric_id fresh s).1)) [
              | inr (f, r) ↦ absurd (cc (rw (p, q, same, r) at e))
              | inl (ts, r) ↦ elim (Bool-cases (is_recorded ts payload)) [
                | inr missing ↦ absurd (cc (rw (p, q, same, r, missing) at e))
                | inl there ↦ (
                  payload,
                  ts,
                  checked_cert-IsGenuine c d o file pin payload p,
                  q ∙ ap ok (sym ((==_iff _ _).0 same)),
                  r,
                  is_recorded-IsTombstoned ts payload there,
                  ground (arith, (rw (p, q, same, r, there) at e)),
                )
              ]
            ]
          ]
        ]
      ]
