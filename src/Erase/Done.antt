-- ===== src/Erase/Done.antt =====
-- What `purge_target` did, where it succeeds.
use respawn.Base.{
  ℕ, Bytes, text, Bool, true, false, none, some, List, [], ◌∷◌, ◌++◌, length, list_eq, nat_eq, ◌≡◌,
  refl, sym, ap, ◌∙◌, inl, inr, arith, Bool-cases, Option-cases,
}
use respawn.Base.Dict.{lookup, erase}
use respawn.Errors.{Result, ok, err, corrupt, Result-cases}
use respawn.Lines.{newline, trim}
use respawn.Crates
use respawn.Crates.{Crates, hash_hex}
use respawn.Store.{Fabric}
use respawn.Tree.{World, Names, Tree}
use respawn.Audit.{Json, tip, record_event}
use respawn.Manifest.{ManifestJson}
use respawn.Purge.{Tombstone, TombstoneJson, tombstones, is_purged}
use respawn.Signing
use respawn.Signing.{Ed25519, get_key}
use respawn.Anchor.{fabric_id}
use respawn.Anchor.Made.{get_key-size}
use respawn.Fleet.{log_event}
use respawn.Erase.{
  CertWriter, Target, PurgeReport, certify, payload_of, tombstone_of, old_lines, purge_target,
  append_tombstone, remove_live, sign_cert, remove_objects, is_live, counts_text, remove_chunks,
}

module _ (c : Crates) (m : ManifestJson) (t : TombstoneJson) (d : Ed25519) (a : Json)
    (o : CertWriter) (L : Crates.IsLawful c) (D : Signing.IsLawful d) where
  -- What `purge_target` wrote, where it succeeds.
  pub record IsErased (now : ℕ) (target : Target) (id : Bytes) (w : World) (report : PurgeReport)
      (v : World) : Type 0 where
    pub line : Bytes
    pub raw : Bytes
    pub covered : ℕ × Bytes
    pub counts : ℕ × ℕ
    pub serialized : t.to_string (tombstone_of c m t now target) ≡ some line
    pub size : length raw ≡ 32
    pub certified :
        certify c m t d a o raw (payload_of c m t d a o now target counts covered (trim id))
        ≡ ok report.certificate
    pub appended :
        v.fabric.purged_file ≡ some (old_lines c m t w.fabric.purged_file ++ line ++ newline ∷ [])
    pub same_id : v.fabric.fabric_id_file ≡ some id

  abbrev marked : Bytes → Fabric → Fabric
  marked line s = record s {
    purged_file = some (old_lines c m t s.purged_file ++ line ++ newline ∷ []);
  }

  append_tombstone-some :
      (x : Tombstone) (line : Bytes) (s : Fabric)
      → t.to_string x ≡ some line
      → append_tombstone c m t x s ≡ (ok tt, marked line s)
  unfolding append_tombstone
  append_tombstone-some x line s e = rw (append_tombstone, e) refl

  append_tombstone-none :
      (x : Tombstone) (s : Fabric)
      → t.to_string x ≡ none
      → (append_tombstone c m t x s).0 ≡ err (corrupt "json")
  unfolding append_tombstone
  append_tombstone-none x s e = rw (append_tombstone, e) refl

  remove_live-eq :
      (names : Names) (w : World)
      → (b : Bool) × (tree : Tree) × (remove_live c m t names w ≡ (ok b, record w { tree = tree }))
  unfolding remove_live
  remove_live-eq names w = elim (Bool-cases (is_live (lookup names w.tree))) [
    | inl live ↦ (true, erase names w.tree, rw (remove_live, live) refl)
    | inr dead ↦ (false, w.tree, rw (remove_live, dead) refl)
  ]

  pub fabric_id-eq :
      (fresh id : Bytes) (s : Fabric)
      → s.fabric_id_file ≡ some id
      → fabric_id fresh s ≡ (ok (trim id), s)
  unfolding fabric_id
  fabric_id-eq fresh id s e = ground arith

  abbrev certificate_of : Result PurgeReport → Bytes
  certificate_of (ok report) = report.certificate
  certificate_of (err e) = []

  -- What signing a certificate at `s` comes to.
  record IsSigned (now : ℕ) (target : Target) (counts : ℕ × ℕ) (id : Bytes) (s : Fabric)
      (cert : Bytes) : Type 0 where
    raw : Bytes
    covered : ℕ × Bytes
    key : get_key c s ≡ ok raw
    certified :
        certify c m t d a o raw (payload_of c m t d a o now target counts covered (trim id))
        ≡ ok cert

  sign_cert-IsSigned :
      (now : ℕ) (fresh id cert : Bytes) (target : Target) (counts : ℕ × ℕ) (s : Fabric)
      → s.fabric_id_file ≡ some id
      → (sign_cert c m t d a o now fresh target counts s).0 ≡ ok cert
      → IsSigned now target counts id s cert
        × ((sign_cert c m t d a o now fresh target counts s).1 ≡ s)
  unfolding sign_cert
  sign_cert-IsSigned now fresh id cert target counts s has_id e =
      elim (Result-cases (get_key c s)) [
        | inr (bad, p) ↦ absurd (cc (rw (sign_cert, p) at e))
        | inl (raw, p) ↦ elim (Result-cases (tip a s.audit_log)) [
          | inr (bad, q) ↦ absurd (cc (rw (sign_cert, p, q) at e))
          | inl (covered, q) ↦
              let named = fabric_id-eq fresh id s has_id in
              (
                record {
                  raw = raw;
                  covered = covered;
                  key = p;
                  certified = (rw (sign_cert, p, q, named) at e);
                },
                rw (sign_cert, p, q, named) refl,
              )
        ]
      ]

  pub purge_target-IsErasedOf :
      (now : ℕ) (fresh id : Bytes) (target : Target) (w v : World) (report : PurgeReport)
      → w.fabric.fabric_id_file ≡ some id
      → purge_target c m t d a o now fresh target w ≡ (ok report, v)
      → IsErased now target id w report v
  unfolding purge_target remove_objects log_event
  purge_target-IsErasedOf now fresh id target w v report has_id e =
      let r =
        remove_chunks c target.found.referenced_elsewhere target.found.purge_chunks
          (record { chunks_removed = 0; chunks_retained_shared = 0; objects = w.fabric.objects }) in
      let counts : ℕ × ℕ = (r.chunks_removed, r.chunks_retained_shared) in
      let x = tombstone_of c m t now target in
      let cleared : Fabric = record w.fabric { objects = r.objects } in
      elim (Option-cases (t.to_string x)) [
        | inl bad ↦ absurd (cc (rw (append_tombstone-none x cleared bad) at e))
        | inr (line, good) ↦
            let p = append_tombstone-some x line cleared good in
            let (b, tree, q) =
              remove_live-eq target.names (record w { fabric = marked line cleared }) in
            let e1 = (rw (p, q) at e) in
            elim (Result-cases
              (sign_cert c m t d a o now fresh target counts (marked line cleared)).0) [
                | inr (bad, f) ↦ absurd (cc (rw f at e1))
                | inl (cert, f) ↦
                    let (signed, still) =
                      sign_cert-IsSigned now fresh id cert target counts (marked line cleared)
                        has_id f in
                    let logged =
                      record_event c a now (text "purge") (target.path ++ counts_text counts)
                        w.fabric.audit_log in
                    elim (Result-cases logged.0) [
                      | inr (bad, g) ↦ absurd (cc (rw (f, still, g) at e1))
                      | inl (done, g) ↦
                          let e2 = (rw (f, still, g) at e1) in
                          let same : cert ≡ report.certificate = ap (λ u. certificate_of u.0) e2 in
                          record {
                            line = line;
                            raw = signed.raw;
                            covered = signed.covered;
                            counts = counts;
                            serialized = good;
                            size = get_key-size c d L D (marked line cleared) signed.raw signed.key;
                            certified = signed.certified ∙ ap ok same;
                            appended = sym (ap (λ u. u.1.fabric.purged_file) e2);
                            same_id = sym (ap (λ u. u.1.fabric.fabric_id_file) e2) ∙ has_id;
                          }
                    ]
              ]
      ]

  pub is_purged-tombstones :
      (path content : Bytes) (s : Fabric)
      → is_purged c t path content s ≡ ok false
      → (ts : List Tombstone) × (tombstones t s ≡ ok ts)
  unfolding is_purged
  is_purged-tombstones path content s e = elim (Result-cases (tombstones t s)) [
    | inl (ts, p) ↦ (ts, p)
    | inr (bad, p) ↦ absurd (cc (rw (is_purged, p) at e))
  ]
