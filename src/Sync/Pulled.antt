-- ===== src/Sync/Pulled.antt =====
-- What a pull may do to the local fabric, whatever the peer answers.
use respawn.Base.{
  ℕ, zero, suc, Bytes, Bool, true, false, not, ◌&&◌, some, List, [], ◌∷◌, ◌++◌, length, contains,
  ltb, ◌==◌, list_eq, nat_eq, if◌then◌else◌, ◌≡◌, refl, sym, ap, ◌∙◌, inl, inr, Bool-cases,
  Option-cases,
}
use mathlib.Core.Option.{some-injective}
use respawn.Base.Dict.{lookup, insert, has, lookup-insert_self, lookup-insert_ne}
use respawn.Errors.{Result, ok, Result-cases, refuse_if, sync}
use respawn.Exec.{Exec, pure, reads, lift, modify, ◌>>=◌, ◌>>◌}
use respawn.Crates
use respawn.Crates.{Crates, hash_hex}
use respawn.Store
use respawn.Store.{
  Fabric, Zstd, put_object, put_object_as, put_manifest, put_manifest_as, has_manifest, has_object,
}
use respawn.Store.Laws.{
  IsHonest, Extends, Extends-refl, Extends-trans, put_object_as-IsHonest, put_object_as-Extends,
  put_manifest_as-Extends,
}
use respawn.Manifest.{ManifestJson, deserialize, validate}
use respawn.Snapshot.Made.{AreNamed}
use respawn.Sync.{
  Session, Peer, ask, frame_payload, on_fabric, chunks_of, fetch_manifest, walk_chain,
  max_objects_per_pull, fetch_object, fetch_batch, count_object, fetch_batches, concat_all,
  to_le_bytes, op_get_head, op_have, op_get_object, op_get_manifest, pull_head, note_remote,
  pull_answered, pull_within, pull, max_manifests_per_pull, dedup, batches, have_batch,
}
use respawn.Base.Sort.{sort}

-- Every object and manifest that was there is there as it was; what was added has its hash as its
-- name; HEAD, the log, the tombstones and the keys are as they were.
pub record IsPulled (c : Crates) (z : Zstd) (s t : Fabric) : Type 0 where
  pub more : Extends s t
  pub honest : IsHonest c z s → IsHonest c z t
  pub named : AreNamed c s → AreNamed c t
  pub head_file : t.head_file ≡ s.head_file
  pub audit_log : t.audit_log ≡ s.audit_log
  pub purged_file : t.purged_file ≡ s.purged_file
  pub secret_file : t.secret_file ≡ s.secret_file
  pub fleet_key_file : t.fleet_key_file ≡ s.fleet_key_file

module _ (c : Crates) (z : Zstd) where
  IsPulled-refl : (s : Fabric) → IsPulled c z s s
  IsPulled-refl s = record {
    more = Extends-refl s;
    honest = λ h. h;
    named = λ h. h;
    head_file = refl;
    audit_log = refl;
    purged_file = refl;
    secret_file = refl;
    fleet_key_file = refl;
  }

  IsPulled-trans : {s t u : Fabric} → IsPulled c z s t → IsPulled c z t u → IsPulled c z s u
  IsPulled-trans f g = record {
    more = Extends-trans _ _ _ f.more g.more;
    honest = λ h. g.honest (f.honest h);
    named = λ h. g.named (f.named h);
    head_file = g.head_file ∙ f.head_file;
    audit_log = g.audit_log ∙ f.audit_log;
    purged_file = g.purged_file ∙ f.purged_file;
    secret_file = g.secret_file ∙ f.secret_file;
    fleet_key_file = g.fleet_key_file ∙ f.fleet_key_file;
  }

  put_manifest_as-IsPulled :
      (h content : Bytes) (s : Fabric) → IsPulled c z s (put_manifest_as c h content s).1
  unfolding put_manifest_as put_manifest
  put_manifest_as-IsPulled h content s =
      let more = put_manifest_as-Extends c z h content s in
      elim (Bool-cases (c.blake3 content == h)) [
        | inr bad ↦ rw bad (IsPulled-refl s)
        | inl good ↦ elim (Bool-cases (has (hash_hex c (c.blake3 content)) s.manifests)) [
          | inl old ↦ rw (good, old) (IsPulled-refl s)
          | inr new ↦
              rw (good, new)
                (record {
                  more = (rw (put_manifest_as, good, new) at more);
                  honest = λ k. record { at = k.at };
                  named = λ k. record {
                    at = λ name stored there.
                        elim (list_eq.dec name (hash_hex c (c.blake3 content))) [
                          | yes same ↦
                              let is_stored : content ≡ stored = some-injective _ _ (
                                sym (lookup-insert_self name content s.manifests)
                                ∙ ap (λ n. lookup name (insert n content s.manifests)) same
                                ∙ there) in
                              same ∙ ap (λ b. hash_hex c (c.blake3 b)) is_stored
                          | no other ↦
                              k.at name stored
                                (sym (lookup-insert_ne name _ content s.manifests other) ∙ there)
                        ];
                  };
                  head_file = refl;
                  audit_log = refl;
                  purged_file = refl;
                  secret_file = refl;
                  fleet_key_file = refl;
                })
        ]
      ]

-- The action keeps to what a pull may do.
record Keeps (c : Crates) (z : Zstd) {A : Type 0} (m : Exec Session A) : Type 0 where
  at : (s : Session) → IsPulled c z s.fabric (m s).1.fabric

module _ (c : Crates) (z : Zstd) where
  Keeps-bind :
      {A B : Type 0} {m : Exec Session A} {f : A → Exec Session B}
      → Keeps c z m
      → ((a : A) → Keeps c z (f a))
      → Keeps c z (m >>= f)
  Keeps-bind {m} {f} first next = record {
    at = λ s. elim (Result-cases (m s).0) [
      | inr (e, p) ↦ rw p (first.at s)
      | inl (a, p) ↦ rw p (IsPulled-trans c z (first.at s) ((next a).at (m s).1))
    ];
  }

  Keeps-lift : {A : Type 0} (r : Result A) → Keeps c z (lift {S = Session} r)
  Keeps-lift r = record { at = λ s. IsPulled-refl c z s.fabric }

module _ (c : Crates) (z : Zstd) (L : Crates.IsLawful c) (Z : Store.IsLawful z) where
  put_object_as-IsPulled :
      (h content : Bytes) (s : Fabric) → IsPulled c z s (put_object_as c z h content s).1
  unfolding put_object_as put_object
  put_object_as-IsPulled h content s =
      let more = put_object_as-Extends c z h content s in
      let honest = put_object_as-IsHonest c z L Z h content s in
      elim (Bool-cases (c.blake3 content == h)) [
        | inr bad ↦ rw bad (IsPulled-refl c z s)
        | inl good ↦ elim (Bool-cases (has (hash_hex c (c.blake3 content)) s.objects)) [
          | inl old ↦ rw (good, old) (IsPulled-refl c z s)
          | inr new ↦ elim (Option-cases (z.encode_all content)) [
            | inl e ↦ rw (good, new, e) (IsPulled-refl c z s)
            | inr (packed, e) ↦
                rw (good, new, e)
                  (record {
                    more = (rw (put_object_as, good, put_object, new, e) at more);
                    honest = (rw (put_object_as, good, put_object, new, e) at honest);
                    named = λ k. record { at = k.at };
                    head_file = refl;
                    audit_log = refl;
                    purged_file = refl;
                    secret_file = refl;
                    fleet_key_file = refl;
                  })
          ]
        ]
      ]

  module _ (j : ManifestJson) (peer : Peer) where
    Keeps-ask : (request : Bytes) → Keeps c z (ask peer request)
    unfolding ask
    Keeps-ask request = record { at = λ s. IsPulled-refl c z s.fabric }

    Keeps-store :
        (m : Exec Fabric (Unit {0}))
        → ((s : Fabric) → IsPulled c z s (m s).1)
        → Keeps c z (on_fabric m)
    Keeps-store m h = record { at = λ s. h s.fabric }

    Keeps-reads : {A : Type 0} (f : Session → Result A) → Keeps c z (reads f)
    Keeps-reads f = record { at = λ s. IsPulled-refl c z s.fabric }

    fetch_manifest-Keeps : (cur : Bytes) → Keeps c z (fetch_manifest c z j peer cur)
    unfolding fetch_manifest
    fetch_manifest-Keeps cur = Keeps-bind c z (Keeps-ask (op_get_manifest ∷ cur)) λ resp.
        Keeps-bind c z (Keeps-lift c z (frame_payload resp)) λ content.
          Keeps-bind c z
            (Keeps-lift c z (refuse_if (content == []) (sync "remote missing manifest")))
            λ _.
              Keeps-bind c z
                (Keeps-store (put_manifest_as c cur content)
                  (put_manifest_as-IsPulled c z cur content))
                λ _.
                  Keeps-bind c z (Keeps-lift c z (deserialize j content))
                    λ m. Keeps-bind c z (Keeps-lift c z (validate m)) λ _. Keeps-lift c z (ok m)

    walk_chain-IsPulled :
        (fuel : ℕ) (cur : Bytes) (visited : List Bytes) (fetched : ℕ) (needed : List Bytes)
        (s : Session)
        → IsPulled c z s.fabric (walk_chain c z j peer fuel cur visited fetched needed s).1.fabric
    unfolding walk_chain
    walk_chain-IsPulled zero cur visited fetched needed s =
        elim (Bool-cases (has_manifest c cur s.fabric)) [
          | inl old ↦ rw old (IsPulled-refl c z s.fabric)
          | inr new ↦ elim (Bool-cases (contains visited cur)) [
            | inl cycle ↦ rw (new, cycle) (IsPulled-refl c z s.fabric)
            | inr free ↦ rw (new, free) (IsPulled-refl c z s.fabric)
          ]
        ]
    walk_chain-IsPulled (suc fuel) cur visited fetched needed s =
        elim (Bool-cases (has_manifest c cur s.fabric)) [
          | inl old ↦ rw old (IsPulled-refl c z s.fabric)
          | inr new ↦ elim (Bool-cases (contains visited cur)) [
            | inl cycle ↦ rw (new, cycle) (IsPulled-refl c z s.fabric)
            | inr free ↦
                let step = (fetch_manifest-Keeps cur).at s in
                let t = (fetch_manifest c z j peer cur s).1 in
                elim (Result-cases (fetch_manifest c z j peer cur s).0) [
                  | inr (e, p) ↦ rw (new, free, p) step
                  | inl (m, p) ↦
                      elim (Bool-cases
                        (ltb max_objects_per_pull (length (needed ++ chunks_of m.files)))) [
                          | inl many ↦ rw (new, free, p, many) step
                          | inr few ↦ elim (Option-cases m.parent) [
                            | inl first ↦ rw (new, free, p, few, first) step
                            | inr (parent, next) ↦
                                rw (new, free, p, few, next)
                                  (IsPulled-trans c z step (
                                    walk_chain-IsPulled fuel parent (cur ∷ visited) (suc fetched)
                                      (needed ++ chunks_of m.files) t))
                          ]
                        ]
                ]
          ]
        ]

    fetch_object-Keeps : (flag : ℕ) (h : Bytes) → Keeps c z (fetch_object c z j peer flag h)
    unfolding fetch_object
    fetch_object-Keeps flag h =
        Keeps-bind c z (Keeps-reads (λ s. ok (flag == 1 && not (has_object c h s.fabric))))
          λ wanted. within wanted
      where
        within :
            (wanted : Bool)
            → Keeps c z (
                if not wanted then pure false else do
                  resp ← ask peer (op_get_object ∷ h)
                  content ← lift (frame_payload resp)
                  lift (refuse_if (content == []) (sync "remote missing object"))
                  on_fabric (put_object_as c z h content)
                  pure true)
        within false = record { at = λ s. IsPulled-refl c z s.fabric }
        within true = Keeps-bind c z (Keeps-ask (op_get_object ∷ h)) λ resp.
            Keeps-bind c z (Keeps-lift c z (frame_payload resp)) λ content.
              Keeps-bind c z
                (Keeps-lift c z (refuse_if (content == []) (sync "remote missing object")))
                λ _.
                  Keeps-bind c z
                    (Keeps-store (put_object_as c z h content) (put_object_as-IsPulled h content))
                    λ _. Keeps-lift c z (ok true)

    fetch_batch-Keeps :
        (hs : List Bytes) (flags : Bytes) (counts : ℕ × ℕ)
        → Keeps c z (fetch_batch c z j peer hs flags counts)
    unfolding fetch_batch
    fetch_batch-Keeps [] flags counts = record { at = λ s. IsPulled-refl c z s.fabric }
    fetch_batch-Keeps (h ∷ hs) [] counts = record { at = λ s. IsPulled-refl c z s.fabric }
    fetch_batch-Keeps (h ∷ hs) (flag ∷ flags) counts =
        Keeps-bind c z (fetch_object-Keeps flag h)
          λ got. fetch_batch-Keeps hs flags (count_object c z j peer got counts)

    fetch_batches-Keeps :
        (bs : List (List Bytes)) (counts : ℕ × ℕ) → Keeps c z (fetch_batches c z j peer bs counts)
    unfolding fetch_batches
    fetch_batches-Keeps [] counts = record { at = λ s. IsPulled-refl c z s.fabric }
    fetch_batches-Keeps (batch ∷ rest) counts =
        Keeps-bind c z (Keeps-ask (op_have ∷ to_le_bytes 4 (length batch) ++ concat_all batch))
          λ have.
            Keeps-bind c z
              (Keeps-lift c z
                (refuse_if (not (length have == length batch)) (sync "HAVE response truncated")))
              λ _.
                Keeps-bind c z (fetch_batch-Keeps batch have counts)
                  λ counted. fetch_batches-Keeps rest counted

    Keeps-remotes : (addr remote : Bytes) → Keeps c z (modify (note_remote c z j peer addr remote))
    Keeps-remotes addr remote = record {
      at = λ s. record {
        more = record { objects = λ n p e. e; manifests = λ n p e. e };
        honest = λ k. record { at = k.at };
        named = λ k. record { at = k.at };
        head_file = refl;
        audit_log = refl;
        purged_file = refl;
        secret_file = refl;
        fleet_key_file = refl;
      };
    }

    pull_head-Keeps :
        (cap size : ℕ) (addr remote : Bytes) → Keeps c z (pull_head c z j peer cap size addr remote)
    unfolding pull_head
    pull_head-Keeps cap size addr remote =
        Keeps-bind c z (record { at = walk_chain-IsPulled cap remote [] 0 [] })
          λ walked.
            let needed = dedup (sort walked.1) in
            Keeps-bind c z (fetch_batches-Keeps (batches (length needed) size needed) (0, 0))
              λ counts. Keeps-bind c z (Keeps-remotes addr remote) λ _. Keeps-lift c z (
                ok (record {
                  remote_head = some remote;
                  manifests_fetched = walked.0;
                  objects_fetched = counts.0;
                  objects_skipped = counts.1;
                }))

    pull_answered-Keeps :
        (cap size : ℕ) (addr resp : Bytes) → Keeps c z (pull_answered c z j peer cap size addr resp)
    unfolding pull_answered
    pull_answered-Keeps cap size addr [] = record { at = λ s. IsPulled-refl c z s.fabric }
    pull_answered-Keeps cap size addr (flag ∷ remote) = record {
      at = λ s. elim (Bool-cases (length remote == 32 && flag == 1)) [
        | inl head ↦ rw head ((pull_head-Keeps cap size addr remote).at s)
        | inr other ↦ elim (Bool-cases (flag == 0)) [
          | inl nothing ↦ rw (other, nothing) (IsPulled-refl c z s.fabric)
          | inr bad ↦ rw (other, bad) (IsPulled-refl c z s.fabric)
        ]
      ];
    }

    pull_within-Keeps :
        (cap size : ℕ) (addr : Bytes) → Keeps c z (pull_within c z j peer cap size addr)
    unfolding pull_within
    pull_within-Keeps cap size addr =
        Keeps-bind c z (Keeps-ask (op_get_head ∷ [])) λ resp. pull_answered-Keeps cap size addr resp

    -- Whatever a peer answers, and whatever `pull` returns, every object and manifest of the local
    -- fabric stays as it was, one that was added is stored under its own hash if all were before,
    -- and HEAD, the log, the tombstones and the keys are unchanged. Assumed: the documented
    -- behaviour of the crates.
    pub pull-IsPulled :
        (addr : Bytes) (s : Session) → IsPulled c z s.fabric (pull c z j peer addr s).1.fabric
    unfolding pull
    pull-IsPulled addr = (pull_within-Keeps max_manifests_per_pull have_batch addr).at
