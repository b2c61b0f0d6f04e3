-- ===== src/Fleet/Mint.antt =====
-- src/fleet.rs: `order`, which mints an order. serde_json, writing the two types, is a parameter;
-- the file of the order is the result.
use respawn.Base.{
  ℕ, Bytes, text, true, not, Option, some, ◌++◌, take, length, ◌==◌, ==_refl, list_eq, nat_eq, ◌≡◌,
  refl, inl, inr, arith, Bool-cases, Option-cases,
}
use respawn.Errors
use respawn.Errors.{Result, ok, err, corrupt, refuse_if, Result-cases}
use respawn.Exec.{Exec, reads, lift, ◌>>=◌, ◌>>◌}
use respawn.Lines.{trim}
use respawn.Crates
use respawn.Crates.{Crates, hash_bytes, hash_hex}
use respawn.Store.{Fabric, has_manifest}
use respawn.Audit.{Json, decimal}
use respawn.Signing
use respawn.Signing.{Ed25519, get_key}
use respawn.Anchor.{fabric_id, parse}
use respawn.Anchor.Made.{get_key-size, check_signature-sign}
use respawn.History.{resolve}
use respawn.Fleet.{OrderPayload, FleetOrder, OrderJson, checked_order}

pub record OrderWriter : Type 0 where
  pub payload_to_string : OrderPayload → Option Bytes
  pub order_to_vec : FleetOrder → Option Bytes

-- What was serialized reads back as it was.
pub record IsReadBack (o : OrderWriter) (r : OrderJson) : Type 0 where
  pub payload :
      (p : OrderPayload) (b : Bytes)
      → o.payload_to_string p ≡ some b
      → r.payload_from_str b ≡ some p
  pub order :
      (f : FleetOrder) (b : Bytes) → o.order_to_vec f ≡ some b → r.order_from_slice b ≡ some f

module _ (c : Crates) (d : Ed25519) (o : OrderWriter) where
  -- The payload at the time `ts`, by the process `pid`.
  abbrev pub payload_of : ℕ → ℕ → Bytes → Bytes → OrderPayload
  payload_of ts pid id target = record {
    kind = text "respawn-fleet-order";
    fabric_id = id;
    target = hash_hex c target;
    ts = ts;
    nonce = take 16 (hash_hex c (hash_bytes c (decimal ts ++ text ":" ++ decimal pid)));
  }

  unfoldable pub sign_order : Bytes → OrderPayload → Result Bytes
  sign_order raw p = Errors.◌>>=◌ (parse (o.payload_to_string p)) λ payload. parse (
      o.order_to_vec (record {
        format = text "respawn-fleet-order/v1";
        pubkey = hash_hex c (d.public_key raw);
        payload = payload;
        sig = hash_hex c (d.sign raw payload);
      }))

  unfoldable pub order : ℕ → ℕ → Bytes → Bytes → Exec Fabric Bytes
  unfolding sign_order
  order ts pid fresh target = do
    id ← reads (resolve c target)
    reads (λ s. refuse_if (not (has_manifest c id s)) (corrupt "target snapshot not in store"))
    raw ← reads (get_key c)
    own ← fabric_id fresh
    lift (sign_order raw (payload_of ts pid own id))

  module _ (L : Crates.IsLawful c) (D : Signing.IsLawful d) (r : OrderJson) (O : IsReadBack o r)
      (a : Json) where
    checked_order-sign_order :
        (raw file pinned : Bytes) (p : OrderPayload) (s : Fabric)
        → length raw ≡ 32
        → (p.kind == text "respawn-fleet-order") ≡ true
        → s.fleet_key_file ≡ some pinned
        → trim pinned ≡ hash_hex c (d.public_key raw)
        → sign_order raw p ≡ ok file
        → checked_order c a d r file s ≡ ok p
    unfolding sign_order checked_order list_eq nat_eq
    checked_order-sign_order raw file pinned p s size kind pin same e =
        elim (Option-cases (o.payload_to_string p)) [
          | inl bad ↦ absurd (cc (rw (sign_order, bad) at e))
          | inr (packed, good) ↦
              let made : FleetOrder = record {
                format = text "respawn-fleet-order/v1";
                pubkey = hash_hex c (d.public_key raw);
                payload = packed;
                sig = hash_hex c (d.sign raw packed);
              } in
              elim (Option-cases (o.order_to_vec made)) [
                | inl bad ↦ absurd (cc (rw (sign_order, good, bad) at e))
                | inr (bytes, written) ↦
                    let one : bytes ≡ file =
                      ground (arith, (rw (sign_order, good, written) at e)) in
                    rw
                      (
                        checked_order,
                        ← one,
                        O.order made bytes written,
                        O.payload p packed good,
                        kind,
                        pin,
                        same,
                        ==_refl (hash_hex c (d.public_key raw)),
                        check_signature-sign c d L D raw packed size,
                      )
                      refl
              ]
        ]

    -- An order that is minted is accepted by checked_order on every fabric that pinned the key of the
    -- fabric that minted it, and names this fabric, the time and the snapshot that the reference
    -- resolves to. Assumed: the documented behaviour of the crates.
    pub checked_order-order :
        (ts pid : ℕ) (fresh target file pinned raw : Bytes) (s v : Fabric)
        → (order ts pid fresh target s).0 ≡ ok file
        → get_key c s ≡ ok raw
        → v.fleet_key_file ≡ some pinned
        → trim pinned ≡ hash_hex c (d.public_key raw)
        → (id own : Bytes) × (resolve c target s ≡ ok id)
          × ((fabric_id fresh s).0 ≡ ok own)
          × (checked_order c a d r file v ≡ ok (payload_of ts pid own id))
    unfolding order
    checked_order-order ts pid fresh target file pinned raw s v e key pin same =
        elim (Result-cases (resolve c target s)) [
          | inr (bad, p) ↦ absurd (cc (rw (order, p) at e))
          | inl (id, p) ↦ elim (Bool-cases (has_manifest c id s)) [
            | inr missing ↦ absurd (cc (rw (order, p, missing) at e))
            | inl there ↦ elim (Result-cases (fabric_id fresh s).0) [
              | inr (bad, q) ↦ absurd (cc (rw (order, p, there, key, q) at e))
              | inl (own, q) ↦ (
                id,
                own,
                p,
                q,
                checked_order-sign_order raw file pinned (payload_of ts pid own id) v
                    (get_key-size c d L D s raw key) (==_refl (text "respawn-fleet-order")) pin same
                    (rw (order, p, there, key, q) at e),
              )
            ]
          ]
        ]
