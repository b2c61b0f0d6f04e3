-- ===== src/Erase.antt =====
-- src/purge.rs: `run`, for a path without a symbolic link on it. The order in which a hash set is
-- walked is that of insertion. The certificate, which is written below `.respawn/purges/`, is part
-- of the result.
pub mod Done
pub mod Lines
pub mod Gathered
pub mod Shared
pub mod Recorded
use respawn.Base.{
  ℕ, zero, suc, ◌+◌, Bytes, text, Bool, true, false, not, ◌&&◌, ◌||◌, Option, none, some, List, [],
  ◌∷◌, ◌++◌, map, take, any, contains, ◌==◌, list_eq, nat_eq, if◌then◌else◌,
}
use respawn.Base.Dict.{Dict, lookup, erase, has}
use respawn.Errors
use respawn.Errors.{Result, ok, err, corrupt, refuse_if}
use respawn.Exec.{Exec, pure, raise, reads, lift, modify, ◌>>=◌, ◌>>◌}
use respawn.Lines.{newline}
use respawn.Paths.{sanitize_rel, names_of, slash}
use respawn.Crates.{Crates, hash_bytes, hash_hex}
use respawn.Store.{Fabric}
use respawn.Tree.{Node, file, symlink, dir, Names, Tree, World}
use respawn.Audit.{Json, decimal, tip}
use respawn.Manifest.{FileEntry, Manifest, ManifestJson}
use respawn.Listing.{Entry, list}
use respawn.Purge.{Tombstone, TombstoneJson, is_purged}
use respawn.Signing.{Ed25519, get_key}
use respawn.Anchor.{fabric_id, parse}
use respawn.Fleet.{log_event, in_fabric}
use respawn.Certificate.{PurgePayload, PurgeCert}

-- serde_json, writing the two types of a certificate.
pub record CertWriter : Type 0 where
  pub payload_to_string : PurgePayload → Option Bytes
  pub cert_to_vec : PurgeCert → Option Bytes

pub record PurgeReport : Type 0 where
  pub certificate : Bytes
  pub chunks_removed : ℕ
  pub chunks_retained_shared : ℕ
  pub manifests_touched : ℕ
  pub live_removed : Bool

-- What the loop over the snapshots collects.
pub record Found : Type 0 where
  pub content : Option Bytes
  pub purge_chunks : List Bytes
  pub referenced_elsewhere : List Bytes
  pub manifests_touched : ℕ

-- `insert` into a hash set, of each element.
unfoldable pub add_all : List Bytes → List Bytes → List Bytes
add_all [] set = set
add_all (x ∷ xs) set = add_all xs (if contains set x then set else set ++ x ∷ [])

abbrev pub or_first : Option Bytes → Bytes → Option Bytes
or_first none h = some h
or_first (some g) h = some g

-- The files of one manifest.
unfoldable pub gather_files : Bytes → List FileEntry → Found → Found
unfolding add_all
gather_files rel [] found = found
gather_files rel (fe ∷ fes) found = gather_files rel fes (
    if fe.path == rel
    then record found {
      content = or_first found.content fe.content;
      purge_chunks = add_all fe.chunks found.purge_chunks;
    }
    else record found { referenced_elsewhere = add_all fe.chunks found.referenced_elsewhere })

unfoldable pub gather : Bytes → List Entry → Found → Found
unfolding gather_files
gather rel [] found = found
gather rel ((id, m) ∷ es) found =
    let more = gather_files rel m.files found in
    gather rel es (
      if any (λ fe. fe.path == rel) m.files
      then record more { manifests_touched = suc more.manifests_touched }
      else more)

pub record Removed : Type 0 where
  pub chunks_removed : ℕ
  pub chunks_retained_shared : ℕ
  pub objects : Dict Bytes Bytes

unfoldable pub remove_chunks : Crates → List Bytes → List Bytes → Removed → Removed
remove_chunks c elsewhere [] r = r
remove_chunks c elsewhere (ch ∷ chs) r = remove_chunks c elsewhere chs (
    if contains elsewhere ch
    then record r { chunks_retained_shared = suc r.chunks_retained_shared }
    else if has (hash_hex c ch) r.objects
    then record r {
      chunks_removed = suc r.chunks_removed;
      objects = erase (hash_hex c ch) r.objects;
    }
    else r)

-- What is to be purged, once all checks are passed.
pub record Target : Type 0 where
  pub path : Bytes
  pub names : Names
  pub content : Bytes
  pub found : Found

abbrev pub live_hash : Crates → Option Node → Option Bytes
live_hash c (some (file content stat)) = some (hash_bytes c content)
live_hash c _ = none

abbrev pub is_live : Option Node → Bool
is_live (some (file content stat)) = true
is_live _ = false

abbrev pub slashes : Bytes → Bytes
slashes = map (λ b. if b == b'\\' then slash else b)

-- The counts in the entry of the log.
abbrev pub counts_text : ℕ × ℕ → Bytes
counts_text (removed, shared) =
    text " removed=" ++ decimal removed ++ text " shared=" ++ decimal shared

module _ (c : Crates) (m : ManifestJson) (t : TombstoneJson) where
  -- The content to purge is that of the live file, or of the newest manifest with the path; it is
  -- not purged already.
  unfoldable pub choose : Bytes → Names → Fabric → Found → Result Target
  choose path names s found = elim found.content [
    | none ↦ err (corrupt "nothing to purge")
    | some content ↦ Errors.◌>>=◌ (is_purged c t path content s) λ old.
        Errors.◌>>◌ (refuse_if old (corrupt "already purged"))
          (ok (record { path = path; names = names; content = content; found = found }))
  ]

  abbrev pub nothing_found : Option Bytes → Found
  nothing_found live = record {
    content = live;
    purge_chunks = [];
    referenced_elsewhere = [];
    manifests_touched = 0;
  }

  -- The steps before anything is written.
  unfoldable pub find_target : Bytes → World → Result Target
  unfolding choose gather
  find_target rel w = Errors.◌>>=◌ (sanitize_rel rel) λ p. Errors.◌>>=◌ (list c m w.fabric) λ es.
      choose (slashes p) (names_of p) w.fabric
        (gather (slashes p) es (nothing_found (live_hash c (lookup (names_of p) w.tree))))

  abbrev purge_id : Bytes → Bytes → Bytes
  purge_id path content = hash_hex c (hash_bytes c (path ++ text ":" ++ hash_hex c content))

  abbrev pub tombstone_of : ℕ → Target → Tombstone
  tombstone_of now target = record {
    path = target.path;
    content = hash_hex c target.content;
    purge_id = take 16 (purge_id target.path target.content);
    ts = now;
  }

  abbrev pub old_lines : Option Bytes → Bytes
  old_lines none = []
  old_lines (some content) = content

  -- The file of the tombstones is there, if empty, before the line is serialized.
  unfoldable pub append_tombstone : Tombstone → Exec Fabric (Unit {0})
  append_tombstone tomb s =
      let old = old_lines s.purged_file in
      elim (t.to_string tomb) [
        | none ↦ (err (corrupt "json"), record s { purged_file = some old })
        | some line ↦ (ok tt, record s { purged_file = some (old ++ line ++ newline ∷ []) })
      ]

  unfoldable pub remove_objects : Found → Exec Fabric (ℕ × ℕ)
  unfolding remove_chunks
  remove_objects found s =
      let r =
        remove_chunks c found.referenced_elsewhere found.purge_chunks
          (record { chunks_removed = 0; chunks_retained_shared = 0; objects = s.objects }) in
      (ok (r.chunks_removed, r.chunks_retained_shared), record s { objects = r.objects })

  unfoldable pub remove_live : Names → Exec World Bool
  remove_live names w =
      if is_live (lookup names w.tree)
      then (ok true, record w { tree = erase names w.tree })
      else (ok false, w)

  module _ (d : Ed25519) (a : Json) (o : CertWriter) where
    abbrev pub payload_of : ℕ → Target → ℕ × ℕ → ℕ × Bytes → Bytes → PurgePayload
    payload_of now target counts covered id = record {
      kind = text "respawn-purge";
      version = 1;
      fabric_id = id;
      path = target.path;
      content = hash_hex c target.content;
      chunks_removed = counts.0;
      chunks_retained_shared = counts.1;
      manifests_touched = target.found.manifests_touched;
      audit_len = covered.0;
      audit_tip = covered.1;
      ts = now;
    }

    -- The file of a certificate, signed with this secret.
    unfoldable pub certify : Bytes → PurgePayload → Result Bytes
    certify raw p = Errors.◌>>=◌ (parse (o.payload_to_string p)) λ payload. parse (
        o.cert_to_vec (record {
          format = text "respawn-purge/v1";
          pubkey = hash_hex c (d.public_key raw);
          payload = payload;
          sig = hash_hex c (d.sign raw payload);
        }))

    -- The certificate over the log as it stands, with these counts.
    unfoldable pub sign_cert : ℕ → Bytes → Target → ℕ × ℕ → Exec Fabric Bytes
    unfolding certify
    sign_cert now fresh target counts = do
      raw ← reads (get_key c)
      covered ← reads (λ s. tip a s.audit_log)
      id ← fabric_id fresh
      lift (certify raw (payload_of now target counts covered id))

    -- The steps that write.
    unfoldable pub purge_target : ℕ → Bytes → Target → Exec World PurgeReport
    unfolding remove_objects append_tombstone remove_live sign_cert
    purge_target now fresh target = do
      counts ← in_fabric (remove_objects target.found)
      in_fabric (append_tombstone (tombstone_of now target))
      live_removed ← remove_live target.names
      cert ← in_fabric (sign_cert now fresh target counts)
      in_fabric (log_event c a now (text "purge") (target.path ++ counts_text counts))
      pure (record {
        certificate = cert;
        chunks_removed = counts.0;
        chunks_retained_shared = counts.1;
        manifests_touched = target.found.manifests_touched;
        live_removed = live_removed;
      })

    unfoldable pub run : ℕ → Bytes → Bytes → Exec World PurgeReport
    unfolding find_target purge_target
    run now fresh rel = do target ← reads (find_target rel); purge_target now fresh target
