-- ===== src/Tests/Formats.antt =====
-- Stand-ins for serde_json at the types of manifests and anchors, and for ed25519: lists with
-- lengths, for the values that the tests use, and a signature that repeats the key and the message.
use respawn.Base.{
  ℕ, zero, suc, Bytes, ◌≡◌, refl, sym, ap, true, Option, none, some, List, [], ◌∷◌, ◌++◌, ◌==◌,
  nat_eq, list_eq, ==_refl,
}
use mathlib.Core.Option.{some-injective}
use respawn.Manifest
use respawn.Manifest.{Manifest, ManifestJson, FileEntry}
use respawn.Purge.{TombstoneJson}
use respawn.Signing
use respawn.Signing.{Ed25519}
use respawn.Anchor
use respawn.Anchor.{AnchorFile, AnchorPayload, AnchorJson}
use respawn.Tests.Instances.{
  fill, fill-IsBytes, length-fill, pack, first, rest, first-pack, rest-pack,
}

write_file : List Bytes → FileEntry → ℕ → ℕ → Bytes → Option Bytes
write_file (h ∷ []) e v n msg = some (
    1
    ∷ v
    ∷ n
    ∷ e.mode
    ∷ e.size
    ∷ e.mtime_secs
    ∷ e.mtime_nanos
    ∷ pack e.path (pack e.content (pack h msg)))
write_file _ e v n msg = none

-- A manifest without files, or with one file of one chunk.
write_manifest :
    Option Bytes → List Bytes → Option Bytes → List FileEntry → ℕ → ℕ → Bytes → Option Bytes
write_manifest none [] none [] v n msg = some (0 ∷ v ∷ n ∷ msg)
write_manifest none [] none (fe ∷ []) v n msg = write_file fe.chunks fe v n msg
write_manifest _ _ _ _ v n msg = none

read_manifest : Bytes → Option Manifest
read_manifest (zero ∷ v ∷ n ∷ msg) = some (record {
  version = v;
  parent = none;
  timestamp_secs = n;
  message = msg;
  files = [];
  unstable = [];
  actor = none;
})
read_manifest (suc k ∷ v ∷ n ∷ mode ∷ size ∷ secs ∷ nanos ∷ b) = some (record {
  version = v;
  parent = none;
  timestamp_secs = n;
  message = rest (rest (rest b));
  files =
      record {
        path = first b;
        mode = mode;
        size = size;
        mtime_secs = secs;
        mtime_nanos = nanos;
        content = first (rest b);
        chunks = first (rest (rest b)) ∷ [];
      }
      ∷ [];
  unstable = [];
  actor = none;
})
read_manifest _ = none

unfoldable pub manifest_json : ManifestJson
unfolding write_manifest read_manifest write_file
manifest_json = record {
  to_vec =
      λ m. write_manifest m.parent m.unstable m.actor m.files m.version m.timestamp_secs m.message;
  from_slice = read_manifest;
}

file_back :
    (hs : List Bytes) (e : FileEntry) (v n : ℕ) (msg b : Bytes)
    → e.chunks ≡ hs
    → write_file hs e v n msg ≡ some b
    → read_manifest b
      ≡ some (record {
        version = v;
        parent = none;
        timestamp_secs = n;
        message = msg;
        files = e ∷ [];
        unstable = [];
        actor = none;
      })
unfolding write_file read_manifest
file_back [] e v n msg b c w = absurd (cc)
file_back (h ∷ []) e v n msg b c w = rw (← some-injective _ _ w) (
    rw
      (
        first-pack e.path (pack e.content (pack h msg)),
        rest-pack e.path (pack e.content (pack h msg)),
        first-pack e.content (pack h msg),
        rest-pack e.content (pack h msg),
        first-pack h msg,
        rest-pack h msg,
      )
      (λ i. some (record {
        version = v;
        parent = none;
        timestamp_secs = n;
        message = msg;
        files =
            record {
              path = e.path;
              mode = e.mode;
              size = e.size;
              mtime_secs = e.mtime_secs;
              mtime_nanos = e.mtime_nanos;
              content = e.content;
              chunks = sym c i;
            }
            ∷ [];
        unstable = [];
        actor = none;
      })))
file_back (h ∷ g ∷ hs) e v n msg b c w = absurd (cc)

manifest_back :
    (p : Option Bytes) (u : List Bytes) (a : Option Bytes) (fes : List FileEntry) (v n : ℕ)
    (msg b : Bytes)
    → write_manifest p u a fes v n msg ≡ some b
    → read_manifest b
      ≡ some (record {
        version = v;
        parent = p;
        timestamp_secs = n;
        message = msg;
        files = fes;
        unstable = u;
        actor = a;
      })
unfolding write_manifest read_manifest
manifest_back none [] none [] v n msg b w = rw (← some-injective _ _ w) (none_back v n msg)
  where
    none_back :
        (v n : ℕ) (msg : Bytes)
        → read_manifest (0 ∷ v ∷ n ∷ msg)
          ≡ some (record {
            version = v;
            parent = none;
            timestamp_secs = n;
            message = msg;
            files = [];
            unstable = [];
            actor = none;
          })
    none_back v n msg = refl
manifest_back none [] none (fe ∷ []) v n msg b w = file_back fe.chunks fe v n msg b refl w
manifest_back none [] none (fe ∷ f ∷ fes) v n msg b w = absurd (cc)
manifest_back none [] (some a) fes v n msg b w = absurd (cc)
manifest_back none (x ∷ u) a fes v n msg b w = absurd (cc)
manifest_back (some p) u a fes v n msg b w = absurd (cc)

pub manifest_json-IsLawful : respawn.Manifest.IsLawful manifest_json
unfolding manifest_json
manifest_json-IsLawful = record {
  round_trip = λ m b w.
      manifest_back m.parent m.unstable m.actor m.files m.version m.timestamp_secs m.message b w;
}

unfoldable pub tombstone_json : TombstoneJson
tombstone_json = record { to_string = λ t. none; from_str = λ b. none; is_utf8 = λ b. true }

unfoldable pub ed25519 : Ed25519
ed25519 = record {
  public_key = fill 32;
  sign = λ secret message. fill 64 (fill 32 secret ++ message);
  is_key = λ b. true;
  verify = λ key message sig. sig == fill 64 (key ++ message);
}

pub ed25519-IsLawful : Signing.IsLawful ed25519
unfolding ed25519
ed25519-IsLawful = record {
  public_bytes =
      λ secret h. record { bytes = fill-IsBytes 32 secret; size = length-fill 32 secret };
  public_valid = λ secret h. refl;
  signature_bytes = λ secret message. fill-IsBytes 64 (fill 32 secret ++ message);
  signature_size = λ secret message. length-fill 64 (fill 32 secret ++ message);
  verify-sign = λ secret message h. ==_refl (fill 64 (fill 32 secret ++ message));
}

write_payload : Option Bytes → Option Bytes → AnchorPayload → Option Bytes
write_payload none none p =
    some (0 ∷ p.version ∷ p.audit_len ∷ p.ts ∷ pack p.kind (pack p.fabric_id p.audit_tip))
write_payload none (some h) p =
    some (1 ∷ p.version ∷ p.audit_len ∷ p.ts ∷ pack p.kind (pack p.fabric_id (pack p.audit_tip h)))
write_payload _ _ p = none

read_payload : Bytes → Option AnchorPayload
read_payload (zero ∷ v ∷ n ∷ t ∷ b) = some (record {
  kind = first b;
  version = v;
  fabric_id = first (rest b);
  audit_len = n;
  audit_tip = rest (rest b);
  head = none;
  prev_anchor = none;
  ts = t;
})
read_payload (suc k ∷ v ∷ n ∷ t ∷ b) = some (record {
  kind = first b;
  version = v;
  fabric_id = first (rest b);
  audit_len = n;
  audit_tip = first (rest (rest b));
  head = none;
  prev_anchor = some (rest (rest (rest b)));
  ts = t;
})
read_payload _ = none

read_file : Bytes → AnchorFile
read_file b = record {
  format = first b;
  pubkey = first (rest b);
  payload = first (rest (rest b));
  sig = rest (rest (rest b));
}

unfoldable pub anchor_json : AnchorJson
unfolding write_payload read_payload read_file
anchor_json = record {
  payload_to_string = λ p. write_payload p.head p.prev_anchor p;
  payload_from_str = read_payload;
  file_to_vec = λ f. some (pack f.format (pack f.pubkey (pack f.payload f.sig)));
  file_from_slice = λ b. some (read_file b);
}

payload_eq :
    (p : AnchorPayload) (q : Option Bytes)
    → none ≡ p.head
    → q ≡ p.prev_anchor
    → record {
      kind = p.kind;
      version = p.version;
      fabric_id = p.fabric_id;
      audit_len = p.audit_len;
      audit_tip = p.audit_tip;
      head = none;
      prev_anchor = q;
      ts = p.ts;
    }
      ≡ p
payload_eq p q e f = λ i. record {
  kind = p.kind;
  version = p.version;
  fabric_id = p.fabric_id;
  audit_len = p.audit_len;
  audit_tip = p.audit_tip;
  head = e i;
  prev_anchor = f i;
  ts = p.ts;
}

payload_back :
    (h q : Option Bytes) (p : AnchorPayload) (b : Bytes)
    → p.head ≡ h
    → p.prev_anchor ≡ q
    → write_payload h q p ≡ some b
    → read_payload b ≡ some p
unfolding write_payload read_payload
payload_back none none p b e f w = rw (← some-injective _ _ w) (
    rw
      (
        first-pack p.kind (pack p.fabric_id p.audit_tip),
        rest-pack p.kind (pack p.fabric_id p.audit_tip),
        first-pack p.fabric_id p.audit_tip,
        rest-pack p.fabric_id p.audit_tip,
      )
      (ap some (payload_eq p none (sym e) (sym f))))
payload_back none (some h) p b e f w = rw (← some-injective _ _ w) (
    rw
      (
        first-pack p.kind (pack p.fabric_id (pack p.audit_tip h)),
        rest-pack p.kind (pack p.fabric_id (pack p.audit_tip h)),
        first-pack p.fabric_id (pack p.audit_tip h),
        rest-pack p.fabric_id (pack p.audit_tip h),
        first-pack p.audit_tip h,
        rest-pack p.audit_tip h,
      )
      (ap some (payload_eq p (some h) (sym e) (sym f))))
payload_back (some x) none p b e f w = absurd (cc)
payload_back (some x) (some y) p b e f w = absurd (cc)

pub anchor_json-IsLawful : Anchor.IsLawful anchor_json
unfolding anchor_json
anchor_json-IsLawful = record {
  payload = λ p b w. payload_back p.head p.prev_anchor p b refl refl w;
  file = λ f b w. rw (← some-injective _ _ w) (ap some (signed_back f));
}
  where
    signed_back :
        (f : AnchorFile) → read_file (pack f.format (pack f.pubkey (pack f.payload f.sig))) ≡ f
    signed_back f =
        rw
          (
            read_file,
            rest-pack f.format (pack f.pubkey (pack f.payload f.sig)),
            first-pack f.format (pack f.pubkey (pack f.payload f.sig)),
            rest-pack f.pubkey (pack f.payload f.sig),
            first-pack f.pubkey (pack f.payload f.sig),
            rest-pack f.payload f.sig,
            first-pack f.payload f.sig,
          )
          refl
