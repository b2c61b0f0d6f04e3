-- ===== src/Fleet/Authentic.antt =====
-- What an order that `apply` carries out must be.
use respawn.Base.{
  ℕ, ◌≤◌, Bytes, text, Bool, Option, some, ltb, ◌==◌, list_eq, nat_eq, ◌≡◌, ap, ◌∙◌, inl, inr,
  arith, Bool-cases, Option-cases,
}
use respawn.Errors.{ok, Result-cases}
use respawn.Lines.{trim}
use respawn.Crates.{Crates}
use respawn.Store.{Fabric, Zstd}
use respawn.Audit.{Json}
use respawn.Manifest.{ManifestJson}
use respawn.Purge.{TombstoneJson}
use respawn.Tree.{World}
use respawn.Signing.{Ed25519, check_signature}
use respawn.Anchor.{fabric_id}
use respawn.Sync.{Peer}
use respawn.Fleet.{OrderJson, FleetOrder, OrderPayload, checked_order, last_seen, apply}

-- The order is signed with the pinned key.
pub record IsAuthentic (c : Crates) (d : Ed25519) (o : OrderJson) (file : Bytes) (s : Fabric)
    (payload : OrderPayload) : Type 0 where
  pub order : FleetOrder
  pub pinned : Bytes
  pub parsed : o.order_from_slice file ≡ some order
  pub payload_parsed : o.payload_from_str order.payload ≡ some payload
  pub is_pinned : s.fleet_key_file ≡ some pinned
  pub signer : order.pubkey ≡ trim pinned
  pub signed : check_signature c d order.pubkey order.sig order.payload ≡ ok tt

module _ (c : Crates) (a : Json) (d : Ed25519) (o : OrderJson) where
  checked_order-IsAuthentic :
      (file : Bytes) (s : Fabric) (payload : OrderPayload)
      → checked_order c a d o file s ≡ ok payload
      → IsAuthentic c d o file s payload
  unfolding checked_order
  checked_order-IsAuthentic file s payload e = elim (Option-cases (o.order_from_slice file)) [
    | inl p ↦ absurd (cc (rw p at e))
    | inr (order, p) ↦ elim (Bool-cases (order.format == text "respawn-fleet-order/v1")) [
      | inr f ↦ absurd (cc (rw (p, f) at e))
      | inl f ↦ elim (Option-cases (o.payload_from_str order.payload)) [
        | inl q ↦ absurd (cc (rw (p, f, q) at e))
        | inr (read, q) ↦ elim (Bool-cases (read.kind == text "respawn-fleet-order")) [
          | inr k ↦ absurd (cc (rw (p, f, q, k) at e))
          | inl k ↦ elim (Option-cases s.fleet_key_file) [
            | inl n ↦ absurd (cc (rw (p, f, q, k, n) at e))
            | inr (pinned, n) ↦ elim (Bool-cases (order.pubkey == trim pinned)) [
              | inr other ↦ absurd (cc (rw (p, f, q, k, n, other) at e))
              | inl same ↦
                  elim (Result-cases (check_signature c d order.pubkey order.sig order.payload)) [
                    | inr (g, v) ↦ absurd (cc (rw (p, f, q, k, n, same, v) at e))
                    | inl (_, v) ↦
                        let is_payload : read ≡ payload =
                          ground (arith, (rw (p, f, q, k, n, same, v) at e)) in
                        record {
                          order = order;
                          pinned = pinned;
                          parsed = p;
                          payload_parsed = q ∙ ap some is_payload;
                          is_pinned = n;
                          signer = ground arith;
                          signed = v;
                        }
                  ]
            ]
          ]
        ]
      ]
    ]
  ]

  fabric_id-keeps :
      (fresh : Bytes) (s : Fabric)
      → ((id : Bytes) × ((fabric_id fresh s).0 ≡ ok id))
        × (last_seen o (fabric_id fresh s).1 ≡ last_seen o s)
  unfolding fabric_id last_seen
  fabric_id-keeps fresh s = elim (Option-cases s.fabric_id_file) [
    | inl none_yet ↦ ((fresh, ground arith), ground arith)
    | inr (content, there) ↦ ((trim content, ground arith), ground arith)
  ]

module _ (c : Crates) (z : Zstd) (j : ManifestJson) (t : TombstoneJson) (a : Json) (d : Ed25519)
    (o : OrderJson) where
  -- An order that `apply` carries out is signed with the key that `trust` pinned, and is not older
  -- than the newest order that was carried out before, in fleet_seen.
  pub apply-IsAuthentic :
      (now : ℕ) (fresh file target : Bytes) (from : Option (Bytes × Peer)) (force : Bool)
      (w : World)
      → (apply c z j t a d o now fresh file from force w).0 ≡ ok target
      → (payload : OrderPayload) × IsAuthentic c d o file w.fabric payload
        × (last_seen o w.fabric ≤ payload.ts)
  unfolding apply
  apply-IsAuthentic now fresh file target from force w e =
      let ((id, known), kept) = fabric_id-keeps c a d o fresh w.fabric in
      let s = (fabric_id fresh w.fabric).1 in
      elim (Result-cases (checked_order c a d o file w.fabric)) [
        | inr (f, p) ↦ absurd (cc (rw p at e))
        | inl (payload, p) ↦ elim (Bool-cases (payload.fabric_id == id)) [
          | inr other ↦ absurd (cc (rw (p, known, other) at e))
          | inl same ↦ elim (Bool-cases (ltb payload.ts (last_seen o s))) [
            | inl stale ↦ absurd (cc (rw (p, known, same, stale) at e))
            | inr fresh_enough ↦ (
              payload,
              checked_order-IsAuthentic c a d o file w.fabric payload p,
              ground (arith, kept),
            )
          ]
        ]
      ]
