-- ===== src/Snapshot/Made.antt =====
-- The snapshot that `create_from_actor` stores.
use respawn.Base.{
  ℕ, Bytes, Option, none, some, List, [], ◌∷◌, ◌≡◌, ◌≢◌, ◌≤◌, refl, ap, sym, ◌∙◌, ◌⊎◌, inl, inr,
  All, arith, Bool-cases, Option-cases, list_eq, nat_eq,
}
use mathlib.Core.Path.{subst, subst₂}
use mathlib.Core.List.{Memᴰ}
use mathlib.Core.List.Memᴰ.{tail}
use mathlib.Core.List.Memᴰ.{head as head_mem}
use respawn.Base.Dict.{lookup, has, lookup-insert_self, has-eq_true}
use respawn.Errors.{Result, ok, Result-cases}
use respawn.Crates
use respawn.Crates.{Crates, Collision, hash_hex}
use respawn.Crates.Laws.{hash_hex-injective}
use respawn.Store
use respawn.Store.{Fabric, Zstd, get_manifest_bytes, put_manifest, head, set_head}
use respawn.Store.Laws.{IsHonest, IsHonestIn-held, IsHeld, Extends, put_manifest-Extends}
use respawn.Manifest
use respawn.Manifest.{FileEntry, Manifest, ManifestJson, serialize, manifest_version}
use respawn.Purge.{TombstoneJson, tombstones}
use respawn.Snapshot.{WalkEntry, scan, ignore_patterns, create_from_actor, quiesce_retries}
use respawn.Snapshot.Capture.{IsCutter, materialize-Extends}
use respawn.Snapshot.Walk.{HaveChunks, IsFileOfWalk, scan-IsScan}

-- Every stored manifest has its hash as its name.
pub record AreNamed (c : Crates) (s : Fabric) : Type 0 where
  pub at :
      (name content : Bytes)
      → lookup name s.manifests ≡ some content
      → name ≡ hash_hex c (c.blake3 content)

-- What a snapshot that `create_from_actor` made comes to in the fabric that it leaves.
pub record IsSnapshot (c : Crates) (z : Zstd) (j : ManifestJson) (es : List (Option WalkEntry))
    (message : Bytes) (actor : Option Bytes) (s s' : Fabric) (id : Bytes) : Type 0 where
  pub manifest : Manifest
  pub stored : Bytes
  pub bytes : get_manifest_bytes c id s' ≡ ok stored
  pub parsed : j.from_slice stored ≡ some manifest
  pub is_head : s'.head_file ≡ some (hash_hex c id)
  pub parent : head c s ≡ ok manifest.parent
  pub message_kept : manifest.message ≡ message
  pub actor_kept : manifest.actor ≡ actor
  pub files : All (IsFileOfWalk c z s' es) manifest.files

-- A chunk of what one of the attempts to capture a file of the walk saw.
abbrev pub IsChunkOf : (Bytes → List Bytes) → List (Option WalkEntry) → Bytes → Type 0
IsChunkOf cut [] text = ⊥
IsChunkOf cut (none ∷ es) text = IsChunkOf cut es text
IsChunkOf cut (some e ∷ es) text =
    ((n : ℕ) × (b : Bytes) × (n ≤ quiesce_retries)
      × ((e.attempts n).content ≡ ok b)
      × Memᴰ text (cut b))
    ⊎ IsChunkOf cut es text

-- The texts that meet in the store: what it held before, and the chunks of the files.
abbrev pub IsAtHand :
    Crates → Zstd → (Bytes → List Bytes) → List (Option WalkEntry) → Fabric → Bytes → Type 0
IsAtHand c z cut es s text = IsHeld c z s text ⊎ IsChunkOf cut es text

-- The store held another manifest under the id of the one that was made.
pub record IsTaken (c : Crates) (j : ManifestJson) (message : Bytes) (actor : Option Bytes)
    (s : Fabric) (id : Bytes) : Type 0 where
  pub held : Bytes
  pub found : lookup (hash_hex c id) s.manifests ≡ some held
  pub manifest : Manifest
  pub made : Bytes
  pub serialized : serialize j manifest ≡ ok made
  pub parent : head c s ≡ ok manifest.parent
  pub message_kept : manifest.message ≡ message
  pub actor_kept : manifest.actor ≡ actor
  pub differ : made ≢ held
  pub made_hash : c.blake3 made ≡ id
  pub held_hash : c.blake3 held ≡ id

all_members : (P : Bytes → Type 0) (xs : List Bytes) → ((x : Bytes) → Memᴰ x xs → P x) → All P xs
all_members P [] h = tt
all_members P (x ∷ xs) h = (h x (head_mem refl), all_members P xs (λ y m. h y (tail m)))

have_chunks :
    (P : Bytes → Type 0) (cut : Bytes → List Bytes) (es : List (Option WalkEntry))
    → ((text : Bytes) → IsChunkOf cut es text → P text)
    → HaveChunks P cut es
have_chunks P cut [] h = tt
have_chunks P cut (none ∷ es) h = have_chunks P cut es h
have_chunks P cut (some e ∷ es) h = (
  λ n b few seen. all_members P (cut b) (λ text m. h text (inl (n, b, few, seen, m))),
  have_chunks P cut es (λ text k. h text (inr k)),
)

module _ (c : Crates) (L : Crates.IsLawful c) where
  head-same : (s t : Fabric) → t.head_file ≡ s.head_file → head c t ≡ head c s
  unfolding head
  head-same s t e = rw e refl

  -- A manifest that is put in can be got out.
  pub get_manifest_bytes-put_manifest :
      (content : Bytes) (s : Fabric)
      → AreNamed c s
      → (get_manifest_bytes c (c.blake3 content) (put_manifest c content s).1 ≡ ok content)
        ⊎ ((held : Bytes) × (lookup (hash_hex c (c.blake3 content)) s.manifests ≡ some held)
            × (content ≢ held)
            × (c.blake3 held ≡ c.blake3 content))
  unfolding get_manifest_bytes put_manifest
  get_manifest_bytes-put_manifest content s named =
      elim (Bool-cases (has (hash_hex c (c.blake3 content)) s.manifests)) [
        | inr new ↦ inl (
            rw
              (
                new,
                get_manifest_bytes,
                lookup-insert_self (hash_hex c (c.blake3 content)) content s.manifests,
              )
              refl)
        | inl old ↦
            let (stored, found) = has-eq_true _ s.manifests old in
            elim (list_eq.dec content stored) [
              | yes same ↦ inl (rw (old, get_manifest_bytes, found) (ap ok (sym same)))
              | no other ↦ inr (
                stored,
                found,
                other,
                sym (
                    hash_hex-injective c L _ _ (L.blake3-IsHash content) (L.blake3-IsHash stored)
                      (named.at _ stored found)),
              )
            ]
      ]

  put_manifest-ok :
      (content : Bytes) (s : Fabric) → (put_manifest c content s).0 ≡ ok (c.blake3 content)
  unfolding put_manifest
  put_manifest-ok content s = elim (Bool-cases (has (hash_hex c (c.blake3 content)) s.manifests)) [
    | inl old ↦ rw old refl
    | inr new ↦ rw new refl
  ]

files_Extends :
    (c : Crates) (z : Zstd) (s t : Fabric) (es : List (Option WalkEntry)) (fe : FileEntry)
    → Extends s t
    → IsFileOfWalk c z s es fe
    → IsFileOfWalk c z t es fe
files_Extends c z s t [] fe x h = h
files_Extends c z s t (none ∷ es) fe x h = files_Extends c z s t es fe x h
files_Extends c z s t (some e ∷ es) fe x (inl (p, n, b, seen, m)) =
    inl (p, n, b, seen, materialize-Extends c z s t fe b x m)
files_Extends c z s t (some e ∷ es) fe x (inr h) = inr (files_Extends c z s t es fe x h)

All-Extends :
    (c : Crates) (z : Zstd) (s t : Fabric) (es : List (Option WalkEntry)) (fes : List FileEntry)
    → Extends s t
    → All (IsFileOfWalk c z s es) fes
    → All (IsFileOfWalk c z t es) fes
All-Extends c z s t es [] x h = tt
All-Extends c z s t es (fe ∷ fes) x h =
    (files_Extends c z s t es fe x h.0, All-Extends c z s t es fes x h.1)

serialize-eq_ok :
    (j : ManifestJson) (m : Manifest) (b : Bytes)
    → respawn.Manifest.IsLawful j
    → serialize j m ≡ ok b
    → j.from_slice b ≡ some m
unfolding serialize
serialize-eq_ok j m b lawful h = elim (Option-cases (j.to_vec m)) [
  | inl e ↦ absurd (cc (rw (serialize, e) at h))
  | inr (b', e) ↦ lawful.round_trip m b (e ∙ ap some (ground (arith, (rw (serialize, e) at h))))
]

module _ (c : Crates) (z : Zstd) (cut : Bytes → List Bytes) (j : ManifestJson) (t : TombstoneJson)
    (L : Crates.IsLawful c) (Z : Store.IsLawful z) (K : IsCutter cut)
    (J : respawn.Manifest.IsLawful j) where
  IsSnapshot-stored :
      (s u : Fabric) (m : Manifest) (content message : Bytes) (actor : Option Bytes)
      (es : List (Option WalkEntry))
      → AreNamed c u
      → u.manifests ≡ s.manifests
      → head c s ≡ ok m.parent
      → m.message ≡ message
      → m.actor ≡ actor
      → serialize j m ≡ ok content
      → All (IsFileOfWalk c z u es) m.files
      → IsSnapshot c z j es message actor s
          (set_head c (some (c.blake3 content)) (put_manifest c content u).1)
          (c.blake3 content)
        ⊎ IsTaken c j message actor s (c.blake3 content)
  unfolding set_head get_manifest_bytes
  IsSnapshot-stored s u m content message actor es named same parent msg act e files =
      elim (get_manifest_bytes-put_manifest c L content u named) [
        | inr (held, found, differ, same_hash) ↦ inr (record {
          held = held;
          found = ap (λ k. lookup (hash_hex c (c.blake3 content)) k) (sym same) ∙ found;
          manifest = m;
          made = content;
          serialized = e;
          parent = parent;
          message_kept = msg;
          actor_kept = act;
          differ = differ;
          made_hash = refl;
          held_hash = same_hash;
        })
        | inl got ↦ inl (record {
          manifest = m;
          stored = content;
          bytes = got;
          parsed = serialize-eq_ok j m content J e;
          is_head = refl;
          parent = parent;
          message_kept = msg;
          actor_kept = act;
          files =
              All-Extends c z u _ es m.files
                (record {
                  objects = (put_manifest-Extends c z content u).objects;
                  manifests = (put_manifest-Extends c z content u).manifests;
                })
                files;
        })
      ]

  -- Into a fabric whose objects and manifests have their hashes as names, a snapshot that
  -- `create_from_actor` makes is HEAD, its manifest can be read and names the previous HEAD, the
  -- message and the actor, and each of its files is a file of the walk, under its path, and is put
  -- together from the store with the content that one attempt to read it saw; or, of the contents
  -- that the store held and the chunks of what the attempts saw, two have one hash; or the store
  -- held another manifest under the id of the one that was made. Assumed: the documented behaviour of the crates.
  pub create_from_actor-IsSnapshot :
      (now : ℕ) (ignore : Option Bytes) (message : Bytes) (actor : Option Bytes)
      (es : List (Option WalkEntry)) (s s' : Fabric) (id : Bytes)
      → IsHonest c z s
      → AreNamed c s
      → create_from_actor c z cut j t now ignore message actor es s ≡ (ok id, s')
      → IsSnapshot c z j es message actor s s' id
        ⊎ (Collision c (IsAtHand c z cut es s) ⊎ IsTaken c j message actor s id)
  unfolding create_from_actor
  create_from_actor-IsSnapshot now ignore message actor es s s' id honest named e =
      elim (Result-cases (tombstones t s)) [
        | inr (f, p) ↦ absurd (cc (rw p at e))
        | inl (ts, p) ↦
            let patterns = ignore_patterns t.is_utf8 ignore in
            let u = (scan c z cut patterns ts es s).1 in
            let at_hand = IsAtHand c z cut es s in
            let chunks = have_chunks at_hand cut es (λ text k. inr k) in
            let run = scan-IsScan c z at_hand cut L Z K patterns ts es s chunks in
            let holds = IsHonestIn-held c z s at_hand honest (λ text held. inl held) in
            elim (Result-cases (scan c z cut patterns ts es s).0) [
              | inr (f, q) ↦ absurd (cc (rw (p, q) at e))
              | inl (sc, q) ↦ elim (Result-cases (head c u)) [
                | inr (f, r) ↦ absurd (cc (rw (p, q, r) at e))
                | inl (parent, r) ↦
                    let m : Manifest = record {
                      version = manifest_version;
                      parent = parent;
                      timestamp_secs = now;
                      message = message;
                      files = sc.files;
                      unstable = sc.unstable;
                      actor = actor;
                    } in
                    elim (Result-cases (serialize j m)) [
                      | inr (f, v) ↦ absurd (cc (rw (p, q, r, v) at e))
                      | inl (content, v) ↦ elim (run.good sc q holds) [
                        | inr hit ↦ inr (inl hit)
                        | inl files ↦
                            let done : ◌≡◌ {A = Result Bytes × Fabric}
                                (
                                  ok (c.blake3 content),
                                  set_head c (some (c.blake3 content)) (put_manifest c content u).1,
                                )
                                (ok id, s') =
                              rw (p, q, r, v, put_manifest-ok c L content u) at e in
                            let same_id : c.blake3 content ≡ id = ground arith in
                            elim (IsSnapshot-stored s u m content message actor es
                              (record { at = rw run.step.manifests named.at }) run.step.manifests
                              (sym (head-same c L s u run.step.head_file) ∙ r) refl refl v files) [
                                | inl snapshot ↦ inl (
                                    subst₂ (λ i w. IsSnapshot c z j es message actor s w i) same_id
                                      (ap (λ k. k.1) done) snapshot)
                                | inr taken ↦
                                    inr (inr (subst (IsTaken c j message actor s) same_id taken))
                              ]
                      ]
                    ]
              ]
            ]
      ]
