-- ===== src/Anchor.antt =====
-- src/anchor.rs: anchors. serde_json at the two types of the module, the source of randomness and
-- `canonicalize` of a path are parameters; a file that is written outside the fabric is part of
-- the result, and one that is read is its bytes.
pub mod Made
pub mod Next
use respawn.Base.{
  ℕ, ◌+◌, ◌*◌, Bytes, text, Bool, true, false, not, ◌&&◌, ◌||◌, Option, none, some, List, [], ◌∷◌,
  ◌++◌, length, ltb, ◌==◌, list_eq, nat_eq, option_eq, if◌then◌else◌, ◌≡◌, leb,
}
use respawn.Errors
use respawn.Errors.{Result, ok, err, corrupt, io, refuse_if}
use respawn.Exec.{Exec, pure, reads, lift, modify, ◌>>=◌, ◌>>◌}
use respawn.Lines.{trim}
use respawn.Crates.{Crates, hash_bytes, hash_hex}
use respawn.Paths.{Component, normal, root_dir, parent_dir, cur_dir, normalize}
use respawn.Store.{Fabric, head}
use respawn.Audit
use respawn.Audit.{Json, tip, tip_is_prefix}
use respawn.Signing.{Ed25519, check_signature, get_key, put_key, key_exists}

pub record AnchorPayload : Type 0 where
  pub kind : Bytes
  pub version : ℕ
  pub fabric_id : Bytes
  pub audit_len : ℕ
  pub audit_tip : Bytes
  pub head : Option Bytes
  pub prev_anchor : Option Bytes
  pub ts : ℕ

pub record AnchorFile : Type 0 where
  pub format : Bytes
  pub pubkey : Bytes
  pub payload : Bytes
  pub sig : Bytes

pub record AnchorJson : Type 0 where
  pub payload_to_string : AnchorPayload → Option Bytes
  pub payload_from_str : Bytes → Option AnchorPayload
  pub file_to_vec : AnchorFile → Option Bytes
  pub file_from_slice : Bytes → Option AnchorFile

-- What was serialized reads back as it was.
pub record IsLawful (a : AnchorJson) : Type 0 where
  pub payload :
      (p : AnchorPayload) (b : Bytes)
      → a.payload_to_string p ≡ some b
      → a.payload_from_str b ≡ some p
  pub file : (f : AnchorFile) (b : Bytes) → a.file_to_vec f ≡ some b → a.file_from_slice b ≡ some f

abbrev pub anchor_version : ℕ
anchor_version = 1

abbrev pub max_anchor_bytes : ℕ
max_anchor_bytes = 4 * 1024 * 1024

abbrev pub parse : {A : Type 0} → Option A → Result A
parse none = err (corrupt "json")
parse (some a) = ok a

-- `fabric_id`; `fresh` is what `random_hex32` gives.
unfoldable pub fabric_id : Bytes → Exec Fabric Bytes
fabric_id fresh s = elim s.fabric_id_file [
  | some content ↦ (ok (trim content), s)
  | none ↦ (ok fresh, record s { fabric_id_file = some fresh })
]

unfoldable pub keygen : Crates → Ed25519 → Bytes → Bytes → Exec Fabric Bytes
unfolding fabric_id
keygen c d raw fresh = do
  free ← reads (λ s. refuse_if (key_exists c s) (corrupt "anchor key already exists"))
  id ← fabric_id fresh
  modify (put_key c raw)
  pure (hash_hex c (d.public_key raw))

unfoldable pub pubkey : Crates → Ed25519 → Fabric → Result Bytes
pubkey c d s = Errors.◌>>=◌ (get_key c s) λ raw. ok (hash_hex c (d.public_key raw))

-- The loop of `create` over the ancestors of the parent, the deepest first in `up`, with the names
-- passed over in `tail`. `none` where no ancestor can be resolved.
unfoldable pub resolve_existing :
    (List Component → Option (List Component))
    → List Component
    → List Component
    → Option (List Component)
resolve_existing canonicalize [] tail = canonicalize []
resolve_existing canonicalize (p ∷ up) tail =
    let higher = resolve_existing canonicalize up (p ∷ tail) in
    elim (canonicalize (p ∷ up)) [
      | some base ↦ some (base ++ tail)
      | none ↦ elim p [ normal name ↦ higher | _ ↦ none ]
    ]

abbrev pub same_component : Component → Component → Bool
same_component (normal a) (normal b) = a == b
same_component root_dir root_dir = true
same_component cur_dir cur_dir = true
same_component parent_dir parent_dir = true
same_component _ _ = false

-- `Path::starts_with`, component by component.
abbrev pub path_starts_with : List Component → List Component → Bool
path_starts_with ps [] = true
path_starts_with [] (q ∷ qs) = false
path_starts_with (p ∷ ps) (q ∷ qs) = same_component p q && path_starts_with ps qs

-- Where `create` would write: the resolved parent, normalized, and the name of the file.
unfoldable pub candidate :
    (List Component → Option (List Component))
    → List Component
    → List Component
    → List Component
    → List Component
unfolding resolve_existing
candidate canonicalize parent up name = elim (resolve_existing canonicalize up []) [
  | some base ↦ normalize [] (base ++ name)
  | none ↦ normalize [] (parent ++ name)
]

module _ (c : Crates) (d : Ed25519) (j : Json) (a : AnchorJson) where
  abbrev pub link : Option Bytes → Option Bytes
  link none = none
  link (some content) = some (trim content)

  abbrev pub head_hex : Option Bytes → Option Bytes
  head_hex none = none
  head_hex (some h) = some (hash_hex c h)

  -- `create` after the check of the place; the bytes are the file that it writes at `out`.
  unfoldable pub mint : ℕ → Bytes → Exec Fabric (Bytes × ℕ)
  unfolding fabric_id
  mint now fresh = do
    raw ← reads (get_key c)
    covered ← reads (λ s. tip j s.audit_log)
    prev ← reads (λ s. ok (link s.last_anchor_file))
    id ← fabric_id fresh
    current ← reads (head c)
    payload ← lift (
        parse (
          a.payload_to_string (record {
            kind = text "respawn-anchor";
            version = anchor_version;
            fabric_id = id;
            audit_len = covered.0;
            audit_tip = covered.1;
            head = head_hex current;
            prev_anchor = prev;
            ts = now;
          })))
    content ← lift (
        parse (
          a.file_to_vec (record {
            format = text "respawn-anchor/v1";
            pubkey = hash_hex c (d.public_key raw);
            payload = payload;
            sig = hash_hex c (d.sign raw payload);
          })))
    modify (λ s. record s { last_anchor_file = some (hash_hex c (hash_bytes c content)) })
    pure (content, covered.0)

  -- `create`, where `fabric` is the resolved directory of the fabric.
  unfoldable pub create : List Component → List Component → ℕ → Bytes → Exec Fabric (Bytes × ℕ)
  unfolding mint
  create place fabric now fresh = do
    lift (refuse_if (path_starts_with place fabric) (corrupt "anchor must live outside .respawn/"))
    mint now fresh

  unfoldable pub read_anchor_file : Bytes → Result Bytes
  read_anchor_file file =
      if ltb max_anchor_bytes (length file)
      then err (corrupt "anchor file exceeds the cap")
      else ok file

  unfoldable pub checked_anchor : Bytes → Result (AnchorFile × AnchorPayload)
  unfolding check_signature
  checked_anchor bytes = Errors.◌>>=◌ (parse (a.file_from_slice bytes)) λ file.
      Errors.◌>>◌
        (refuse_if (not (file.format == text "respawn-anchor/v1"))
          (corrupt "unknown anchor format"))
        (Errors.◌>>◌ (check_signature c d file.pubkey file.sig file.payload) (
          Errors.◌>>=◌ (parse (a.payload_from_str file.payload)) λ payload.
            Errors.◌>>◌
              (refuse_if
                (not (payload.kind == text "respawn-anchor")
                  || not (payload.version == anchor_version))
                (corrupt "anchor payload version/type mismatch"))
              (ok (file, payload))))

pub record VerifyOutcome : Type 0 where
  pub signer_pubkey : Bytes
  pub audit_len : ℕ
  pub anchored_head : Option Bytes
  pub current_head : Option Bytes
  pub file_hash : Bytes
  pub prev_anchor : Option Bytes

abbrev pub to_lower : Bytes → Bytes
to_lower [] = []
to_lower (b ∷ bs) = (if leb b'A' b && leb b b'Z' then b + 32 else b) ∷ to_lower bs

abbrev pub is_other_key : Option Bytes → Bytes → Bool
is_other_key none key = false
is_other_key (some want) key = not (to_lower want == to_lower key)

module _ (c : Crates) (d : Ed25519) (j : Json) (a : AnchorJson) where
  -- `verify` of the bytes of a file.
  unfoldable pub verify : Bytes → Bytes → Option Bytes → Exec Fabric VerifyOutcome
  unfolding read_anchor_file checked_anchor fabric_id
  verify fresh file expected_pubkey = do
    bytes ← lift (read_anchor_file c d j a file)
    parts ← lift (checked_anchor c d j a bytes)
    lift (
        refuse_if (is_other_key expected_pubkey parts.0.pubkey)
          (corrupt "anchor signer does not match expected key"))
    id ← fabric_id fresh
    lift
        (refuse_if (not (parts.1.fabric_id == id)) (corrupt "anchor belongs to a different fabric"))
    held ← reads (λ s. tip_is_prefix c j s.audit_log parts.1.audit_len parts.1.audit_tip)
    current ← reads (head c)
    pure (record {
      signer_pubkey = parts.0.pubkey;
      audit_len = parts.1.audit_len;
      anchored_head = parts.1.head;
      current_head = head_hex c d j a current;
      file_hash = hash_hex c (hash_bytes c bytes);
      prev_anchor = parts.1.prev_anchor;
    })

  unfoldable pub verify_link : Bytes → Bytes → Result (Unit {0})
  unfolding read_anchor_file checked_anchor
  verify_link cur prev = Errors.◌>>=◌ (read_anchor_file c d j a prev) λ prev_bytes.
      Errors.◌>>=◌ (checked_anchor c d j a prev_bytes) λ _.
        Errors.◌>>=◌ (read_anchor_file c d j a cur) λ cur_bytes.
          Errors.◌>>=◌ (checked_anchor c d j a cur_bytes) λ parts. elim parts.1.prev_anchor [
            | none ↦ err (corrupt "anchor has no chain link")
            | some h ↦
                if h == hash_hex c (hash_bytes c prev_bytes)
                then ok tt
                else err (corrupt "anchor does not chain to the given predecessor")
          ]

  unfoldable pub verify_detached_bytes : Bytes → Result Bytes
  unfolding checked_anchor
  verify_detached_bytes bytes =
      Errors.◌>>=◌ (checked_anchor c d j a bytes) λ parts. ok parts.0.pubkey
