-- ===== src/Anchor/Made.antt =====
-- Anchors that `create` makes, and links between anchors.
use respawn.Base.{
  ℕ, ◌≤◌, ◌<◌, Bytes, text, Option, none, some, List, length, ==_refl, list_eq, nat_eq, String, ◌≡◌,
  refl, sym, ap, ◌∙◌, ◌⊎◌, inl, inr, All, arith, Bool-cases, Option-cases, le→ltb_false,
}
use mathlib.Core.Option.{some-injective}
use mathlib.Core.Path.{subst}
use respawn.Errors.{Result, ok, err, Result-cases}
use respawn.Lines.{trim}
use respawn.Crates
use respawn.Crates.{Crates, Collision, hash_hex}
use respawn.Crates.Laws.{eq_or_Collision}
use respawn.Store.{Fabric, head}
use respawn.Audit
use respawn.Audit.{Json, AuditEntry, tip, tip_is_prefix, u64_mod}
use respawn.Audit.Record.{IsSound, Event, HasTime, record_all}
use respawn.Audit.Anchored.{tip_is_prefix-record_all}
use respawn.Signing
use respawn.Signing.{Ed25519, check_signature, decode_sized, get_key, read_secret_file}
use respawn.Anchor
use respawn.Anchor.{
  AnchorJson, AnchorFile, AnchorPayload, anchor_version, max_anchor_bytes, parse, fabric_id, mint,
  create, path_starts_with, Component, read_anchor_file, checked_anchor, VerifyOutcome, verify,
  verify_link,
}

parse-eq_ok : {A : Type 0} (o : Option A) (x : A) → parse o ≡ ok x → o ≡ some x
parse-eq_ok none x e = absurd (cc)
parse-eq_ok (some y) x e = ground arith

module _ (c : Crates) (d : Ed25519) (j : Json) (a : AnchorJson) where
  read_anchor_file-eq_ok : (file b : Bytes) → read_anchor_file c d j a file ≡ ok b → file ≡ b
  unfolding read_anchor_file
  read_anchor_file-eq_ok file b e = ground arith

  verify_link-eq_ok :
      (cur prev : Bytes)
      → verify_link c d j a cur prev ≡ ok tt
      → (parts : AnchorFile × AnchorPayload) × (checked_anchor c d j a cur ≡ ok parts)
        × (parts.1.prev_anchor ≡ some (hash_hex c (c.blake3 prev)))
  unfolding verify_link
  verify_link-eq_ok cur prev e = elim (Result-cases (read_anchor_file c d j a prev)) [
    | inr (f, p) ↦ absurd (cc (rw p at e))
    | inl (prev_bytes, p) ↦ elim (Result-cases (checked_anchor c d j a prev_bytes)) [
      | inr (f, q) ↦ absurd (cc (rw (p, q) at e))
      | inl (_, q) ↦ elim (Result-cases (read_anchor_file c d j a cur)) [
        | inr (f, r) ↦ absurd (cc (rw (p, q, r) at e))
        | inl (cur_bytes, r) ↦ elim (Result-cases (checked_anchor c d j a cur_bytes)) [
          | inr (f, t) ↦ absurd (cc (rw (p, q, r, t) at e))
          | inl (parts, t) ↦
              let same_prev = read_anchor_file-eq_ok prev prev_bytes p in
              let same_cur = read_anchor_file-eq_ok cur cur_bytes r in
              elim (Option-cases parts.1.prev_anchor) [
                | inl gone ↦ absurd (cc (rw (p, q, r, t, gone) at e))
                | inr (h, there) ↦ elim (list_eq.dec h (hash_hex c (c.blake3 prev_bytes))) [
                  | no other ↦ absurd (ground (arith, (rw (p, q, r, t, there) at e)))
                  | yes same ↦ (
                    parts,
                    rw same_cur t,
                    there ∙ ap some (same ∙ ap (λ b. hash_hex c (c.blake3 b)) (sym same_prev)),
                  )
                ]
              ]
        ]
      ]
    ]
  ]

  -- An anchor has one predecessor: two files that `verify_link` accepts before it are the same, or
  -- these two files have one BLAKE3 hash.
  pub verify_link_unique :
      Crates.IsLawful c
      → (cur prev other : Bytes) → verify_link c d j a cur prev ≡ ok tt
      → verify_link c d j a cur other ≡ ok tt
      → (prev ≡ other) ⊎ Collision c (λ text. (text ≡ prev) ⊎ (text ≡ other))
  verify_link_unique L cur prev other e f =
      let (parts, read, named) = verify_link-eq_ok cur prev e in
      let (parts', read', named') = verify_link-eq_ok cur other f in
      let same : parts ≡ parts' = ground arith in
      eq_or_Collision c L (λ text. (text ≡ prev) ⊎ (text ≡ other)) prev other (inl refl) (inr refl)
        (some-injective _ _ (sym named ∙ ap (λ k. k.1.prev_anchor) same ∙ named'))

module _ (c : Crates) (d : Ed25519) (L : Crates.IsLawful c) (D : Signing.IsLawful d) where
  pub get_key-size : (s : Fabric) (raw : Bytes) → get_key c s ≡ ok raw → length raw ≡ 32
  unfolding get_key read_secret_file decode_sized
  get_key-size s raw e = ground arith

  decode_sized-encode :
      (message : String) (size : ℕ) (b : Bytes)
      → Crates.IsBytes b
      → length b ≡ size
      → decode_sized c message size (c.hex_encode b) ≡ ok b
  unfolding decode_sized
  decode_sized-encode message size b bytes e = ground (arith, L.decode-encode b bytes)

  -- What a key signs passes the check of its signature.
  pub check_signature-sign :
      (raw payload : Bytes)
      → length raw ≡ 32
      → check_signature c d
          (hash_hex c (d.public_key raw))
          (hash_hex c (d.sign raw payload))
          payload
        ≡ ok tt
  unfolding check_signature
  check_signature-sign raw payload size =
      let key = D.public_bytes raw size in
      rw
        (
          check_signature,
          decode_sized-encode "pubkey" 32 (d.public_key raw) key.bytes key.size,
          D.public_valid raw size,
          decode_sized-encode "signature" 64 (d.sign raw payload) (D.signature_bytes raw payload)
              (D.signature_size raw payload),
          D.verify-sign raw payload size,
        )
        refl

-- What `create` wrote, where it succeeds.
pub record IsMade (c : Crates) (d : Ed25519) (j : Json) (a : AnchorJson) (s s' : Fabric)
    (id content : Bytes) (len : ℕ) : Type 0 where
  pub covered : Bytes
  pub payload : AnchorPayload
  pub file : AnchorFile
  pub tipped : tip j s.audit_log ≡ ok (len, covered)
  pub current : (h : Option Bytes) × (head c s ≡ ok h)
  pub checked : checked_anchor c d j a content ≡ ok (file, payload)
  pub names_tip : (payload.audit_len ≡ len) × (payload.audit_tip ≡ covered)
  pub names_fabric : payload.fabric_id ≡ trim id
  pub kept : s'.fabric_id_file ≡ some id
  pub same_head : s'.head_file ≡ s.head_file
  pub same_log : s'.audit_log ≡ s.audit_log
  pub linked : s'.last_anchor_file ≡ some (hash_hex c (c.blake3 content))

module _ (c : Crates) (d : Ed25519) (j : Json) (a : AnchorJson) (L : Crates.IsLawful c)
    (D : Signing.IsLawful d) (A : Anchor.IsLawful a) where
  checked_anchor-signed :
      (raw packed content : Bytes) (payload : AnchorPayload) (file : AnchorFile)
      → length raw ≡ 32
      → a.payload_to_string payload ≡ some packed
      → a.file_to_vec file ≡ some content
      → file ≡ record {
        format = text "respawn-anchor/v1";
        pubkey = hash_hex c (d.public_key raw);
        payload = packed;
        sig = hash_hex c (d.sign raw packed);
      }
      → payload.kind ≡ text "respawn-anchor"
      → payload.version ≡ anchor_version
      → checked_anchor c d j a content ≡ ok (file, payload)
  unfolding checked_anchor list_eq nat_eq
  checked_anchor-signed raw packed content payload file size p f shape kind version =
      rw
        (
          A.file file content f,
          shape,
          check_signature-sign c d L D raw packed size,
          A.payload payload packed p,
          kind,
          version,
        )
        refl

  abbrev IsMadeOf : Fabric → Bytes → Result (Bytes × ℕ) × Fabric → Type 0
  IsMadeOf s id (ok (content, len), s') = IsMade c d j a s s' id content len
  IsMadeOf s id (err e, s') = Unit

  mint-IsMadeOf :
      (now : ℕ) (fresh id : Bytes) (s : Fabric)
      → s.fabric_id_file ≡ some id
      → IsMadeOf s id (mint c d j a now fresh s)
  unfolding mint fabric_id
  mint-IsMadeOf now fresh id s has_id = elim (Result-cases (get_key c s)) [
    | inr (e, p) ↦ rw p tt
    | inl (raw, p) ↦ elim (Result-cases (tip j s.audit_log)) [
      | inr (e, q) ↦ rw (p, q) tt
      | inl ((len, covered), q) ↦ elim (Result-cases (head c s)) [
        | inr (e, r) ↦ rw (p, q, has_id, r) tt
        | inl (h, r) ↦
            let payload : AnchorPayload = record {
              kind = text "respawn-anchor";
              version = anchor_version;
              fabric_id = trim id;
              audit_len = len;
              audit_tip = covered;
              head = Anchor.head_hex c d j a h;
              prev_anchor = Anchor.link c d j a s.last_anchor_file;
              ts = now;
            } in
            elim (Option-cases (a.payload_to_string payload)) [
              | inl t ↦ rw (p, q, has_id, r, t) tt
              | inr (packed, t) ↦
                  let file : AnchorFile = record {
                    format = text "respawn-anchor/v1";
                    pubkey = hash_hex c (d.public_key raw);
                    payload = packed;
                    sig = hash_hex c (d.sign raw packed);
                  } in
                  elim (Option-cases (a.file_to_vec file)) [
                    | inl u ↦ rw (p, q, has_id, r, t, u) tt
                    | inr (content, u) ↦
                        rw (p, q, has_id, r, t, u)
                          (record {
                            covered = covered;
                            payload = payload;
                            file = file;
                            tipped = q;
                            current = (h, r);
                            checked =
                                checked_anchor-signed raw packed content payload file
                                  (get_key-size c d L D s raw p) t u refl refl refl;
                            names_tip = (refl, refl);
                            names_fabric = refl;
                            kept = has_id;
                            same_head = refl;
                            same_log = refl;
                            linked = refl;
                          })
                  ]
            ]
      ]
    ]
  ]

  made :
      (place fabric : List Component) (now : ℕ) (fresh id : Bytes) (s s' : Fabric) (content : Bytes)
      (len : ℕ)
      → s.fabric_id_file ≡ some id
      → create c d j a place fabric now fresh s ≡ (ok (content, len), s')
      → IsMade c d j a s s' id content len
  unfolding create
  made place fabric now fresh id s s' content len has_id e =
      elim (Bool-cases (path_starts_with place fabric)) [
        | inl inside ↦ absurd (cc (rw inside at e))
        | inr outside ↦
            subst (IsMadeOf s id) (rw outside at e) (mint-IsMadeOf now fresh id s has_id)
      ]

  read_whole :
      (content : Bytes)
      → length content ≤ max_anchor_bytes
      → read_anchor_file c d j a content ≡ ok content
  unfolding read_anchor_file
  read_whole content h =
      rw (read_anchor_file, le→ltb_false max_anchor_bytes (length content) h) refl

  known_id :
      (fresh id : Bytes) (s : Fabric)
      → s.fabric_id_file ≡ some id
      → fabric_id fresh s ≡ (ok (trim id), s)
  unfolding fabric_id
  known_id fresh id s e = ground arith

  head_of_file :
      (s t : Fabric) (h : Option Bytes)
      → t.head_file ≡ s.head_file
      → head c s ≡ ok h
      → head c t ≡ ok h
  unfolding head
  head_of_file s t h e g = rw e g

  verify-IsMade :
      (fresh id content : Bytes) (s s' t : Fabric) (len : ℕ)
      → IsMade c d j a s s' id content len
      → length content ≤ max_anchor_bytes
      → t.fabric_id_file ≡ some id
      → t.head_file ≡ s.head_file
      → ((covered : Bytes)
          → tip j s.audit_log ≡ ok (len, covered)
          → tip_is_prefix c j t.audit_log len covered ≡ ok tt)
      → (outcome : VerifyOutcome) × (verify c d j a fresh content none t ≡ (ok outcome, t))
        × (outcome.audit_len ≡ len)
        × (outcome.file_hash ≡ hash_hex c (c.blake3 content))
  unfolding verify
  verify-IsMade fresh id content s s' t len m small has_id same_head accepted =
      let (h, current) = m.current in
      let here : head c t ≡ ok h = head_of_file s t h same_head current in
      (
        record {
          signer_pubkey = m.file.pubkey;
          audit_len = m.payload.audit_len;
          anchored_head = m.payload.head;
          current_head = Anchor.head_hex c d j a h;
          file_hash = hash_hex c (c.blake3 content);
          prev_anchor = m.payload.prev_anchor;
        },
        rw
            (
              read_whole content small,
              m.checked,
              known_id fresh id t has_id,
              m.names_fabric,
              ==_refl (trim id),
              m.names_tip.0,
              m.names_tip.1,
              accepted m.covered m.tipped,
              here,
            )
            refl,
        m.names_tip.0,
        refl,
      )

  -- An anchor that `create` makes of a fabric with an identity and a log that `record` wrote is
  -- accepted by `verify` after any further calls of `record`, with the count and the hash of the
  -- file. For a file of at most 4 MiB; assumed: the documented behaviour of the crates.
  pub verify-create :
      Audit.IsLawful j
      → (place fabric : List Component) (now : ℕ) (fresh fresh' id : Bytes) (s s' : Fabric)
        (content : Bytes) (len : ℕ) (es : List AuditEntry) (evs : List Event)
      → s.fabric_id_file ≡ some id
      → IsSound c j s.audit_log es
      → length es < u64_mod
      → All HasTime evs
      → length content ≤ max_anchor_bytes
      → create c d j a place fabric now fresh s ≡ (ok (content, len), s')
      → (outcome : VerifyOutcome) × (verify c d j a fresh' content none
            (record s' { audit_log = record_all c j evs s'.audit_log })
          ≡ (ok outcome, record s' { audit_log = record_all c j evs s'.audit_log }))
        × (outcome.audit_len ≡ length es)
        × (outcome.file_hash ≡ hash_hex c (c.blake3 content))
  verify-create M place fabric now fresh fresh' id s s' content len es evs has_id sound fits timed
        small e =
      let m = made place fabric now fresh id s s' content len has_id e in
      let (covered, tipped, accepted) = tip_is_prefix-record_all c j M evs sound fits timed in
      let same_len : len ≡ length es = tip_len _ _ _ _ (sym m.tipped ∙ tipped) in
      let (outcome, done, counted, hashed) =
        verify-IsMade fresh' id content s s'
          (record s' { audit_log = record_all c j evs s'.audit_log }) len m small m.kept m.same_head
          (λ k q.
            rw (m.same_log, tip_len _ _ _ _ (sym q ∙ tipped), tip_hash _ _ _ _ (sym q ∙ tipped))
              accepted) in
      (outcome, done, counted ∙ same_len, hashed)
    where
      tip_len :
          (m n : ℕ) (t u : Bytes) → ◌≡◌ {A = Result (ℕ × Bytes)} (ok (m, t)) (ok (n, u)) → m ≡ n
      tip_len m n t u h = ground arith

      tip_hash :
          (m n : ℕ) (t u : Bytes) → ◌≡◌ {A = Result (ℕ × Bytes)} (ok (m, t)) (ok (n, u)) → t ≡ u
      tip_hash m n t u h = ground arith
