-- ===== src/Tests/Signed.antt =====
-- Anchors and certificates of purges.
use respawn.Base.{
  ℕ, ◌≤◌, Bytes, text, ◌≡◌, refl, ◌⊎◌, none, some, [], ◌∷◌, List, length, true, arith, nat_eq,
  list_eq, option_eq, leb→le,
}
use respawn.Errors.{Result, ok, err}
use respawn.Lines.{trim}
use respawn.Paths.{Component, root_dir, normal}
use respawn.Crates.{Collision, hash_hex}
use respawn.Store.{Fabric, init, head}
use respawn.Audit.{read_lines, tip}
use respawn.Audit.Record.{IsSound-none, Event, record_all}
use respawn.Signing.{get_key}
use respawn.Anchor
use respawn.Anchor.{create, verify, verify_link, VerifyOutcome, checked_anchor}
use respawn.Anchor.Made.{verify-create, verify_link_unique}
use respawn.Signing.{check_signature}
use respawn.Anchor.{fabric_id}
use respawn.Lines.{lines}
use respawn.Purge.{Tombstone, TombstoneJson, tombstones}
use respawn.Certificate.{PurgeCert, PurgePayload, CertJson, verify_cert}
use respawn.Certificate.Genuine.{IsGenuine, IsTombstoned, verify_cert-IsGenuine}
use respawn.Tests.Instances.{pack, first, rest, fill, crates, crates-IsLawful, json, json-IsLawful}
use respawn.Tests.Formats.{anchor_json, anchor_json-IsLawful, ed25519, ed25519-IsLawful}

-- A fabric with an identity and a key.
abbrev fabric : Fabric
fabric = record init {
  fabric_id_file = some (text "f0");
  secret_file = some (crates.hex_encode (crates.blake3 (text "key")));
}

abbrev outside : List Component
outside = root_dir ∷ normal (text "anchors") ∷ normal (text "a.json") ∷ []

abbrev inside : List Component
inside = root_dir ∷ normal (text "w") ∷ normal (text ".respawn") ∷ []

abbrev made : Result (Bytes × ℕ) × Fabric
made = create crates ed25519 json anchor_json outside inside 77 (text "f1") fabric

abbrev made_file : Bytes
made_file = value made.0
  where
    value : Result (Bytes × ℕ) → Bytes
    value (ok (b, n)) = b
    value (err e) = []

abbrev later : Event
later = record { ts = 12; event = text "snap"; detail = [] }

fits : length made_file ≤ Anchor.max_anchor_bytes
unfolding create crates ed25519 json anchor_json list_eq nat_eq get_key trim tip read_lines head
fits = leb→le (length made_file) Anchor.max_anchor_bytes refl

verify-create_example :
    (outcome : VerifyOutcome) × (verify crates ed25519 json anchor_json
        (text "f2")
        made_file
        none
        (record made.1 { audit_log = record_all crates json (later ∷ []) made.1.audit_log })
      ≡ (
        ok outcome,
        record made.1 { audit_log = record_all crates json (later ∷ []) made.1.audit_log },
      ))
    × (outcome.audit_len ≡ 0)
    × (outcome.file_hash ≡ hash_hex crates (crates.blake3 made_file))
unfolding create crates ed25519 json anchor_json list_eq nat_eq get_key trim tip read_lines head
verify-create_example =
    verify-create crates ed25519 json anchor_json crates-IsLawful ed25519-IsLawful
      anchor_json-IsLawful json-IsLawful outside inside 77 (text "f1") (text "f2") (text "f0")
      fabric made.1 made_file 0 [] (later ∷ []) refl (IsSound-none crates json) (omega arith)
      (omega arith, tt) fits refl

abbrev next_made : Result (Bytes × ℕ) × Fabric
next_made = create crates ed25519 json anchor_json outside inside 78 (text "f1") made.1

abbrev linked : Bytes
linked = value next_made.0
  where
    value : Result (Bytes × ℕ) → Bytes
    value (ok (b, n)) = b
    value (err e) = []

verify_link_unique_example :
    (made_file ≡ made_file) ⊎ Collision crates (λ b. (b ≡ made_file) ⊎ (b ≡ made_file))
unfolding verify_link create crates ed25519 json anchor_json list_eq nat_eq get_key trim tip
    read_lines head pack first rest fill
verify_link_unique_example =
    verify_link_unique crates ed25519 json anchor_json crates-IsLawful linked made_file made_file
      refl refl

abbrev key : Bytes
key = crates.blake3 (text "key")

abbrev tombstone : Tombstone
tombstone = record { path = text "a"; content = text "00"; purge_id = text "p"; ts = 4 }

abbrev tombstone_json : TombstoneJson
tombstone_json = record {
  to_string = λ t. none;
  from_str = λ b. some tombstone;
  is_utf8 = λ b. true;
}

abbrev cert : PurgeCert
cert = record {
  format = text "respawn-purge/v1";
  pubkey = crates.hex_encode (ed25519.public_key key);
  payload = text "payload";
  sig = crates.hex_encode (ed25519.sign key (text "payload"));
}

abbrev cert_payload : PurgePayload
cert_payload = record {
  kind = text "respawn-purge";
  version = 1;
  fabric_id = text "f0";
  path = text "a";
  content = text "00";
  chunks_removed = 1;
  chunks_retained_shared = 0;
  manifests_touched = 1;
  audit_len = 0;
  audit_tip = [];
  ts = 4;
}

abbrev cert_json : CertJson
cert_json = record { cert_from_slice = λ b. some cert; payload_from_str = λ b. some cert_payload }

abbrev purged : Fabric
purged = record fabric { purged_file = some (text "tombstone") }

verify_cert-IsGenuine_example :
    (payload : PurgePayload) × (ts : List Tombstone) × IsGenuine crates ed25519 cert_json
      (text "cert")
      none
      payload
    × ((fabric_id (text "f1") purged).0 ≡ ok payload.fabric_id)
    × (tombstones tombstone_json (fabric_id (text "f1") purged).1 ≡ ok ts)
    × IsTombstoned ts payload.path payload.content
    × (payload.path ≡ text "a")
unfolding verify_cert crates ed25519 list_eq nat_eq check_signature fabric_id tombstones fill trim
    lines
verify_cert-IsGenuine_example =
    verify_cert-IsGenuine crates ed25519 cert_json tombstone_json (text "f1") (text "cert")
      (text "a") none purged refl
