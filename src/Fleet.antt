-- ===== src/Fleet.antt =====
-- src/fleet.rs: the pinned key and signed orders. serde_json at the two types of the module and
-- `str::parse` of a number are parameters; the file of an order is its bytes.
pub mod Authentic
pub mod Mint
use respawn.Base.{
  ℕ, Bytes, text, Bool, true, false, not, ◌&&◌, ◌||◌, Option, none, some, List, [], ◌∷◌, ◌++◌,
  length, ltb, ◌==◌, list_eq, nat_eq, if◌then◌else◌, ◌≡◌,
}
use respawn.Errors
use respawn.Errors.{Result, ok, err, corrupt, io, refuse_if}
use respawn.Exec.{Exec, pure, raise, reads, lift, modify, ◌>>=◌, ◌>>◌}
use respawn.Lines.{trim, newline}
use respawn.Crates.{Crates, hash_hex, parse_hash, short}
use respawn.Store.{Fabric, Zstd, has_manifest, set_head}
use respawn.Audit.{Json, decimal, record_event}
use respawn.Manifest.{Manifest, ManifestJson, load}
use respawn.Purge.{TombstoneJson}
use respawn.Tree.{World}
use respawn.Signing.{Ed25519, check_signature}
use respawn.Anchor.{fabric_id, parse}
use respawn.Sync.{Peer, pull}
use respawn.Undo.{check_then_apply}

pub record OrderPayload : Type 0 where
  pub kind : Bytes
  pub fabric_id : Bytes
  pub target : Bytes
  pub ts : ℕ
  pub nonce : Bytes

pub record FleetOrder : Type 0 where
  pub format : Bytes
  pub pubkey : Bytes
  pub payload : Bytes
  pub sig : Bytes

pub record OrderJson : Type 0 where
  pub order_from_slice : Bytes → Option FleetOrder
  pub payload_from_str : Bytes → Option OrderPayload
  pub parse_u64 : Bytes → Option ℕ

abbrev pub is_some : {A : Type 0} → Option A → Bool
is_some none = false
is_some (some a) = true

-- `audit::record`, which writes the log of the fabric.
unfoldable pub log_event : Crates → Json → ℕ → Bytes → Bytes → Exec Fabric (Unit {0})
log_event c a now event detail s =
    let (r, log) = record_event c a now event detail s.audit_log in
    (r, record s { audit_log = log })

module _ (c : Crates) (a : Json) where
  unfoldable pub trust : ℕ → Bytes → Exec Fabric (Unit {0})
  unfolding log_event
  trust now pubkey s =
      if not (length pubkey == 64) || not (is_some (c.hex_decode pubkey))
      then (err (corrupt "fleet pubkey must be 64 hex chars"), s)
      else elim s.fleet_key_file [
        | some cur ↦
            if trim cur == pubkey then (ok tt, s) else (err (corrupt "fleet key already pinned"), s)
        | none ↦
            log_event c a now (text "fleet-trust") pubkey
              (record s { fleet_key_file = some (pubkey ++ newline ∷ []) })
      ]

  -- The order and its payload, once the format, the pinned key and the signature are checked.
  unfoldable pub checked_order : Ed25519 → OrderJson → Bytes → Fabric → Result OrderPayload
  checked_order d o file s = Errors.◌>>=◌ (parse (o.order_from_slice file)) λ order.
      Errors.◌>>◌
        (refuse_if (not (order.format == text "respawn-fleet-order/v1"))
          (corrupt "unknown fleet order format"))
        (Errors.◌>>=◌ (parse (o.payload_from_str order.payload)) λ payload.
          Errors.◌>>◌
            (refuse_if (not (payload.kind == text "respawn-fleet-order"))
              (corrupt "payload kind mismatch"))
            (elim s.fleet_key_file [
              | none ↦ err (corrupt "no pinned fleet key")
              | some content ↦
                  Errors.◌>>◌
                    (refuse_if (not (order.pubkey == trim content))
                      (corrupt "fleet order signer is not the pinned fleet key"))
                    (Errors.◌>>◌ (check_signature c d order.pubkey order.sig order.payload)
                      (ok payload))
            ]))

-- `last_seen`, 0 where there is no number.
unfoldable pub last_seen : OrderJson → Fabric → ℕ
last_seen o s = elim s.fleet_seen_file [
  | none ↦ 0
  | some content ↦ elim (o.parse_u64 (trim content)) [ none ↦ 0 | some n ↦ n ]
]

abbrev pub later : ℕ → ℕ → ℕ
later a b = if ltb a b then b else a

-- A call on the fabric of the world.
abbrev pub in_fabric : {A : Type 0} → Exec Fabric A → Exec World A
in_fabric m w = let (r, s) = m w.fabric in (r, record w { fabric = s })

module _ (c : Crates) (z : Zstd) (j : ManifestJson) (t : TombstoneJson) (a : Json) (d : Ed25519)
    (o : OrderJson) where
  -- The target is pulled from the peer where the store lacks it.
  unfoldable pub ensure_target : Option (Bytes × Peer) → Bytes → Exec Fabric (Unit {0})
  ensure_target from target s = if has_manifest c target s then (ok tt, s) else elim from [
    | none ↦ (err (corrupt "target snapshot not in store"), s)
    | some (addr, peer) ↦
        let (r, u) = pull c z j peer addr (record { fabric = s; sent = [] }) in
        ((Errors.◌>>=◌ r λ _. ok tt), u.fabric)
  ]

  unfoldable pub apply : ℕ → Bytes → Bytes → Option (Bytes × Peer) → Bool → Exec World Bytes
  unfolding checked_order ensure_target last_seen log_event
  apply now fresh file from force = do
    payload ← reads (λ w. checked_order c a d o file w.fabric)
    id ← in_fabric (fabric_id fresh)
    lift (
        refuse_if (not (payload.fabric_id == id))
          (corrupt "fleet order targets a different fabric"))
    seen ← reads (λ w. ok (last_seen o w.fabric))
    lift (refuse_if (ltb payload.ts seen) (corrupt "stale fleet order"))
    target ← lift (parse_hash c payload.target)
    in_fabric (ensure_target from target)
    m ← reads (λ w. load c j target w.fabric)
    applied ← check_then_apply c z j t now m false force
    lift (
        refuse_if (not (is_some applied.1))
          (corrupt "fleet revert refused: un-snapshotted changes"))
    modify (λ w. record w {
      fabric = record (set_head c (some target) w.fabric) {
        fleet_seen_file = some (decimal (later payload.ts seen) ++ newline ∷ []);
      };
    })
    in_fabric (
        log_event c a now (text "fleet-revert")
          (text "order " ++ payload.nonce ++ text " -> " ++ short c target))
    pure target
