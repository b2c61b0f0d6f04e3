-- ===== src/Erase/Shared.antt =====
-- Which objects a purge removes.
use respawn.Base.{
  ℕ, Bytes, text, true, false, some, List, ◌++◌, contains, list_eq, nat_eq, ◌≡◌, refl, sym, ap, ◌∙◌,
  ◌⊎◌, inl, inr, arith, Bool-cases, Option-cases,
}
use respawn.Base.Dict.{lookup}
use respawn.Errors.{ok, Result-cases}
use respawn.Crates.{Crates, hash_hex}
use mathlib.Core.Path.{subst}
use respawn.Store.{Fabric}
use respawn.Paths.{sanitize_rel, names_of}
use respawn.Tree.{World, Names}
use respawn.Audit.{Json, tip}
use respawn.Manifest.{ManifestJson}
use respawn.Listing.{Entry, list}
use respawn.Purge.{Tombstone, TombstoneJson, is_purged}
use respawn.Signing.{Ed25519, get_key}
use respawn.Fleet.{log_event, in_fabric}
use respawn.Exec.{Exec, pure, ◌>>=◌, ◌>>◌}
use respawn.Exec.Within.{Within, IsPreorder, Within-bind, Within-lift, Within-reads}
use respawn.Anchor.{fabric_id}
use respawn.Erase.{
  Found, PurgeReport, gather, remove_chunks, remove_objects, append_tombstone, remove_live,
  sign_cert, CertWriter, Target, purge_target, run, find_target, choose, nothing_found, live_hash,
  certify, payload_of, is_live, slashes, tombstone_of, counts_text,
}
use respawn.Erase.Gathered.{is_shared, gather-elsewhere, remove_chunks-kept}

sanitize_rel-same : (rel p : Bytes) → sanitize_rel rel ≡ ok p → p ≡ rel
unfolding sanitize_rel
sanitize_rel-same rel p e = ground (arith, e)

-- Steps that leave the objects alone.
abbrev KeepsObjects : Fabric → Fabric → Type 0
KeepsObjects s t = t.objects ≡ s.objects

abbrev WorldKeepsObjects : World → World → Type 0
WorldKeepsObjects w v = v.fabric.objects ≡ w.fabric.objects

fabric_order : IsPreorder KeepsObjects
fabric_order = record { same = λ s. refl; trans = λ p q. q ∙ p }

world_order : IsPreorder WorldKeepsObjects
world_order = record { same = λ w. refl; trans = λ p q. q ∙ p }

in_fabric-Within :
    {A : Type 0} {m : Exec Fabric A}
    → Within KeepsObjects m
    → Within WorldKeepsObjects (in_fabric m)
in_fabric-Within p = record { at = λ w. p.at w.fabric }

fabric_id-Within : (fresh : Bytes) → Within KeepsObjects (fabric_id fresh)
unfolding fabric_id
fabric_id-Within fresh = record {
  at = λ s. elim (Option-cases s.fabric_id_file) [
    | inl missing ↦ rw missing refl
    | inr (id, there) ↦ rw there refl
  ];
}

module _ (c : Crates) (m : ManifestJson) (t : TombstoneJson) where
  -- What `choose` returns, where it does.
  pub record IsChosen (path : Bytes) (names : Names) (s : Fabric) (found : Found) (target : Target)
      : Type 0 where
    pub same_path : target.path ≡ path
    pub same_names : target.names ≡ names
    pub same_found : target.found ≡ found
    pub chosen : found.content ≡ some target.content
    pub fresh : is_purged c t path target.content s ≡ ok false

  pub choose-IsChosen :
      (path : Bytes) (names : Names) (s : Fabric) (found : Found) (target : Target)
      → choose c m t path names s found ≡ ok target
      → IsChosen path names s found target
  unfolding choose
  choose-IsChosen path names s found target e = elim (Option-cases found.content) [
    | inl none_found ↦ absurd (cc (rw (choose, none_found) at e))
    | inr (content, there) ↦ elim (Result-cases (is_purged c t path content s)) [
      | inr (bad, p) ↦ absurd (cc (rw (choose, there, p) at e))
      | inl (true, p) ↦ absurd (cc (rw (choose, there, p) at e))
      | inl (false, p) ↦
          let same : record { path = path; names = names; content = content; found = found }
              ≡ target =
            cc (rw (choose, there, p) at e) in
          subst (IsChosen path names s found) same (record {
            same_path = refl;
            same_names = refl;
            same_found = refl;
            chosen = there;
            fresh = p;
          })
    ]
  ]

  pub find_target-IsChosen :
      (rel : Bytes) (w : World) (target : Target)
      → find_target c m t rel w ≡ ok target
      → (es : List Entry) × (list c m w.fabric ≡ ok es)
        × IsChosen
            (slashes rel)
            (names_of rel)
            w.fabric
            (gather
              (slashes rel)
              es
              (nothing_found c m t (live_hash c (lookup (names_of rel) w.tree))))
            target
  unfolding find_target
  find_target-IsChosen rel w target e = elim (Result-cases (sanitize_rel rel)) [
    | inr (bad, p) ↦ absurd (cc (rw (find_target, p) at e))
    | inl (q, p) ↦ elim (Result-cases (list c m w.fabric)) [
      | inr (bad, l) ↦ absurd (cc (rw (find_target, p, l) at e))
      | inl (es, l) ↦
          let same = sanitize_rel-same rel q p in
          (
            es,
            l,
            choose-IsChosen (slashes rel) (names_of rel) w.fabric _ target
                (rw (find_target, p, l, same) at e),
          )
    ]
  ]

  find_target-elsewhere :
      (rel ch : Bytes) (w : World) (target : Target) (es : List Entry)
      → find_target c m t rel w ≡ ok target
      → list c m w.fabric ≡ ok es
      → contains target.found.referenced_elsewhere ch ≡ is_shared (slashes rel) ch es
  find_target-elsewhere rel ch w target es e listed =
      let (fs, l, chosen) = find_target-IsChosen rel w target e in
      let empty = nothing_found c m t (live_hash c (lookup (names_of rel) w.tree)) in
      let same : fs ≡ es = cc (l, listed) in
      ap (λ f. contains f.referenced_elsewhere ch) chosen.same_found
      ∙ gather-elsewhere (slashes rel) ch fs empty
      ∙ ap (is_shared (slashes rel) ch) same

  append_tombstone-Within : (tomb : Tombstone) → Within KeepsObjects (append_tombstone c m t tomb)
  unfolding append_tombstone
  append_tombstone-Within tomb = record {
    at = λ s. elim (Option-cases (t.to_string tomb)) [
      | inl bad ↦ rw (append_tombstone, bad) refl
      | inr (line, good) ↦ rw (append_tombstone, good) refl
    ];
  }

  remove_live-Within : (names : Names) → Within WorldKeepsObjects (remove_live c m t names)
  unfolding remove_live
  remove_live-Within names = record {
    at = λ w. elim (Bool-cases (is_live (lookup names w.tree))) [
      | inl live ↦ rw (remove_live, live) refl
      | inr dead ↦ rw (remove_live, dead) refl
    ];
  }

  module _ (d : Ed25519) (a : Json) (o : CertWriter) where
    sign_cert-Within :
        (now : ℕ) (fresh : Bytes) (target : Target) (counts : ℕ × ℕ)
        → Within KeepsObjects (sign_cert c m t d a o now fresh target counts)
    unfolding sign_cert
    sign_cert-Within now fresh target counts =
        Within-bind fabric_order (Within-reads fabric_order (get_key c)) λ raw.
          Within-bind fabric_order (Within-reads fabric_order (λ s. tip a s.audit_log)) λ covered.
            Within-bind fabric_order (fabric_id-Within fresh) λ id.
              Within-lift fabric_order
                (certify c m t d a o raw (payload_of c m t d a o now target counts covered id))

    log_event-Within :
        (now : ℕ) (event detail : Bytes) → Within KeepsObjects (log_event c a now event detail)
    unfolding log_event
    log_event-Within now event detail = record { at = λ s. refl }

    -- The steps of `purge_target` after the objects.
    after_objects : ℕ → Bytes → Target → ℕ × ℕ → Exec World PurgeReport
    after_objects now fresh target counts = do
      in_fabric (append_tombstone c m t (tombstone_of c m t now target))
      live_removed ← remove_live c m t target.names
      cert ← in_fabric (sign_cert c m t d a o now fresh target counts)
      in_fabric (log_event c a now (text "purge") (target.path ++ counts_text counts))
      pure (record {
        certificate = cert;
        chunks_removed = counts.0;
        chunks_retained_shared = counts.1;
        manifests_touched = target.found.manifests_touched;
        live_removed = live_removed;
      })

    after_objects-Within :
        (now : ℕ) (fresh : Bytes) (target : Target) (counts : ℕ × ℕ)
        → Within WorldKeepsObjects (after_objects now fresh target counts)
    unfolding after_objects
    after_objects-Within now fresh target counts =
        Within-bind world_order
          (in_fabric-Within (append_tombstone-Within (tombstone_of c m t now target)))
          λ _. Within-bind world_order (remove_live-Within target.names) λ live_removed.
            Within-bind world_order (in_fabric-Within (sign_cert-Within now fresh target counts))
              λ cert.
                Within-bind world_order (in_fabric-Within (log_event-Within now _ _))
                  λ _. record { at = λ w. refl }

    purge_target-kept :
        (now : ℕ) (fresh k : Bytes) (target : Target) (w : World)
        → (lookup k (purge_target c m t d a o now fresh target w).1.fabric.objects
            ≡ lookup k w.fabric.objects)
          ⊎ ((ch : Bytes) × (k ≡ hash_hex c ch)
              × (contains target.found.referenced_elsewhere ch ≡ false))
    unfolding purge_target remove_objects after_objects
    purge_target-kept now fresh k target w =
        let r =
          remove_chunks c target.found.referenced_elsewhere target.found.purge_chunks (record {
            chunks_removed = 0;
            chunks_retained_shared = 0;
            objects = w.fabric.objects;
          }) in
        let later =
          (after_objects-Within now fresh target (r.chunks_removed, r.chunks_retained_shared)).at
            (record w { fabric = record w.fabric { objects = r.objects } }) in
        elim (remove_chunks-kept c target.found.referenced_elsewhere target.found.purge_chunks
          (record { chunks_removed = 0; chunks_retained_shared = 0; objects = w.fabric.objects })
          k) [ inl kept ↦ inl (ap (lookup k) later ∙ kept) | inr gone ↦ inr gone ]

    -- Whatever run returns, an object that is gone or changed afterwards is named after a chunk that
    -- no file with another path has, in any of the manifests that list returned.
    pub run-kept :
        (now : ℕ) (fresh rel k : Bytes) (w : World) (es : List Entry)
        → list c m w.fabric ≡ ok es
        → (lookup k (run c m t d a o now fresh rel w).1.fabric.objects ≡ lookup k w.fabric.objects)
          ⊎ ((ch : Bytes) × (k ≡ hash_hex c ch) × (is_shared (slashes rel) ch es ≡ false))
    unfolding run
    run-kept now fresh rel k w es e = elim (Result-cases (find_target c m t rel w)) [
      | inr (bad, p) ↦ rw p (inl refl)
      | inl (target, p) ↦ rw p (elim (purge_target-kept now fresh k target w) [
        | inl kept ↦ inl kept
        | inr (ch, name, alone) ↦
            inr (ch, name, sym (find_target-elsewhere rel ch w target es p e) ∙ alone)
      ])
    ]
