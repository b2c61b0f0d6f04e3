-- ===== src/Tests/Fabric.antt =====
-- Snapshots, reverts, anchors, pulls and orders.
use respawn.Base.{
  ◌≤◌, Bytes, text, ◌≡◌, refl, ap, ◌⊎◌, ◌↔◌, true, false, Option, none, some, [], ◌∷◌, List, length,
  All, arith, nat_eq, list_eq, option_eq, contains, ◌&&◌, not,
}
use respawn.Base.Dict.{lookup, insert, has, erase}
use respawn.Errors.{Result, ok, err}
use respawn.Lines.{trim}
use respawn.Paths.{sanitize_rel, components, split, body, names_of, excluded, rel_str}
use respawn.Crates.{Collision, parse_hash}
use respawn.Audit.{record_event}
use respawn.Store.{
  has_manifest, max_object_size, Fabric, init, get_object, put_object, head, set_head, put_manifest,
  get_manifest_bytes,
}
use respawn.Store.Laws.{IsHonest}
use respawn.Manifest.{FileEntry, Manifest, validate, serialize, deserialize, load}
use respawn.Manifest.Validate.{IsValid, validate-eq_ok}
use respawn.Tree.{World, Node, file, Names, Stat}
use respawn.Purge.{tombstones, is_tombstoned}
use respawn.Revert.{resolve_dest, apply, RevertReport, is_extra}
use respawn.Revert.Exact.{AreOutside, AreCanonical, IsSafe, apply-IsSafe, apply_exact}
use respawn.Revert.Restore.{IsPlaced}
use respawn.Snapshot.{concat, WalkEntry, create_from_actor}
use respawn.Snapshot.Capture.{IsCutter}
use respawn.Snapshot.Made.{IsAtHand, IsTaken, AreNamed, IsSnapshot, create_from_actor-IsSnapshot}
use respawn.Drift.{diff_manifests, by_path, detect}
use respawn.Drift.Diffs.{is_changed, diff_manifests_complete}
use respawn.Drift.{DriftReport}
use respawn.Drift.Full.{detect_full}
use respawn.Undo.{check_then_apply}
use respawn.Undo.Gate.{check_then_apply-saved}
use respawn.Signing.{check_signature}
use respawn.Anchor.{fabric_id}
use respawn.Fleet
use respawn.Fleet.{OrderJson, OrderPayload, FleetOrder, last_seen}
use respawn.Fleet.Authentic.{IsAuthentic, apply-IsAuthentic}
use respawn.Sync.{Peer, pull, frame_payload, framed}
use respawn.Sync.Frames.{frame_payload-framed}
use respawn.Sync.Pulled.{IsPulled, pull-IsPulled}
use respawn.Tests.Instances.{
  json, fill, pack, first, rest, crates, crates-IsLawful, zstd, zstd-IsLawful,
}
use respawn.Tests.Formats.{ed25519, manifest_json, manifest_json-IsLawful, tombstone_json}

abbrev stat : Stat
stat = record { mode = 420; mtime_secs = 5; mtime_nanos = 0 }

abbrev hash : Bytes
hash = crates.blake3 (text "hi")

-- The file `a`, which holds "hi".
abbrev pub entry : FileEntry
entry = record {
  path = text "a";
  mode = 420;
  size = 2;
  mtime_secs = 5;
  mtime_nanos = 0;
  content = hash;
  chunks = hash ∷ [];
}

abbrev pub manifest : Manifest
manifest = record {
  version = 3;
  parent = none;
  timestamp_secs = 9;
  message = text "v1";
  files = entry ∷ [];
  unstable = [];
  actor = none;
}

abbrev fabric : Fabric
fabric = (put_object crates zstd (text "hi") init).1

-- The file `a` was changed and `b` is new.
abbrev pub world : World
world = record {
  fabric = fabric;
  tree = (text "a" ∷ [], file (text "ho") stat) ∷ (text "b" ∷ [], file (text "x") stat) ∷ [];
}

validate-eq_ok_example : (validate manifest ≡ ok tt) ↔ IsValid manifest
validate-eq_ok_example = validate-eq_ok manifest

outside : AreOutside manifest.files
unfolding names_of components split body excluded list_eq nat_eq
outside = (refl, tt)

canonical : AreCanonical manifest.files
unfolding names_of components split body rel_str list_eq nat_eq
canonical = (refl, tt)

apply-IsSafe_example :
    IsSafe crates manifest.files world (apply crates zstd tombstone_json 20 false manifest world).1
apply-IsSafe_example = apply-IsSafe crates zstd tombstone_json 20 false manifest world outside

abbrev report : RevertReport
report = record { restored = text "a" ∷ []; removed = text "b" ∷ []; skipped_extra = [] }

applied : (apply crates zstd tombstone_json 20 false manifest world).0 ≡ ok report
unfolding apply crates zstd tombstone_json put_object get_object validate sanitize_rel components
    split body names_of excluded rel_str list_eq nat_eq option_eq has lookup insert erase tombstones
    is_tombstoned resolve_dest
applied = refl

apply_exact_example :
    All
      (IsPlaced crates (apply crates zstd tombstone_json 20 false manifest world).1.tree)
      manifest.files
    × (false ≡ false
        → (names : Names) (node : Node)
        → lookup names (apply crates zstd tombstone_json 20 false manifest world).1.tree ≡ some node
        → is_extra (text "a" ∷ []) names node ≡ false)
apply_exact_example =
    apply_exact crates zstd tombstone_json 20 false manifest world report outside canonical (tt, tt)
      applied

-- A walk of one file, which does not change.
abbrev pub walk : List (Option WalkEntry)
walk =
    some (record {
      names = text "a" ∷ [];
      is_file = true;
      mode = 420;
      mtime_secs = 5;
      mtime_nanos = 0;
      attempts = λ n. record { before = ok (2, 5); content = ok (text "h"); after = ok (2, 5) };
    })
    ∷ []

-- Every text is cut into pieces of one byte.
abbrev pub cut : Bytes → List Bytes
cut [] = []
cut (b ∷ bs) = (b ∷ []) ∷ cut bs

cut-whole : (b : Bytes) → concat (cut b) ≡ b
cut-whole [] = refl
cut-whole (b ∷ bs) = ap (λ l. b ∷ l) (cut-whole bs)

cut-fits : (b : Bytes) → All (λ p. length p ≤ max_object_size) (cut b)
cut-fits [] = tt
cut-fits (b ∷ bs) = (omega arith, cut-fits bs)

cut-IsCutter : IsCutter cut
cut-IsCutter = record { whole = cut-whole; fits = cut-fits }

init-IsHonest : IsHonest crates zstd init
unfolding lookup
init-IsHonest = record { at = λ n p e. absurd (cc) }

init-AreNamed : AreNamed crates init
unfolding lookup
init-AreNamed = record { at = λ n p e. absurd (cc) }

abbrev pub made : Result Bytes × Fabric
made =
    create_from_actor crates zstd cut manifest_json tombstone_json 9 none (text "v1") none walk init

abbrev pub made_id : Bytes
made_id = value made.0
  where
    value : Result Bytes → Bytes
    value (ok b) = b
    value (err e) = []

create_from_actor-IsSnapshot_example :
    IsSnapshot crates zstd manifest_json walk (text "v1") none init made.1 made_id
    ⊎ (Collision crates (IsAtHand crates zstd cut walk init)
        ⊎ IsTaken crates manifest_json (text "v1") none init made_id)
unfolding create_from_actor crates zstd manifest_json tombstone_json list_eq nat_eq tombstones
    excluded sanitize_rel rel_str components split body put_object has head trim serialize
    put_manifest
create_from_actor-IsSnapshot_example =
    create_from_actor-IsSnapshot crates zstd cut manifest_json tombstone_json crates-IsLawful
      zstd-IsLawful cut-IsCutter manifest_json-IsLawful 9 none (text "v1") none walk init made.1
      made_id init-IsHonest init-AreNamed refl

diff_manifests_complete_example :
    let d = diff_manifests manifest (record manifest { files = [] }) in
    (contains d.added (text "a")
      ≡ (has (text "a") (by_path manifest.files) && not (has (text "a") (by_path []))))
    × (contains d.deleted (text "a")
        ≡ (has (text "a") (by_path []) && not (has (text "a") (by_path manifest.files))))
    × (contains d.modified (text "a")
        ≡ is_changed (lookup (text "a") (by_path manifest.files)) (lookup (text "a") (by_path [])))
diff_manifests_complete_example =
    diff_manifests_complete manifest (record manifest { files = [] }) (text "a")

frame_payload-framed_example : frame_payload (framed (text "hello")) ≡ ok (text "hello")
frame_payload-framed_example = frame_payload-framed (text "hello") (omega arith)

-- A peer that claims a HEAD and then sends bytes of no meaning.
abbrev hostile : Peer
hostile sent request = ok (1 ∷ crates.blake3 (text "evil"))

pull-IsPulled_example :
    IsPulled crates zstd fabric
      (pull crates zstd manifest_json hostile
        (text "10.0.0.1:4789")
        (record { fabric = fabric; sent = [] })).1.fabric
pull-IsPulled_example =
    pull-IsPulled crates zstd crates-IsLawful zstd-IsLawful manifest_json hostile
      (text "10.0.0.1:4789") (record { fabric = fabric; sent = [] })

abbrev pub captured : FileEntry
captured = record {
  path = text "a";
  mode = 420;
  size = 1;
  mtime_secs = 5;
  mtime_nanos = 0;
  content = crates.blake3 (text "h");
  chunks = crates.blake3 (text "h") ∷ [];
}

abbrev pub head_manifest : Manifest
head_manifest = record manifest { files = captured ∷ [] }

-- The worktree as it was when the snapshot was made.
abbrev pub clean_world : World
clean_world = record { fabric = made.1; tree = (text "a" ∷ [], file (text "h") stat) ∷ [] }

abbrev clean_report : DriftReport
clean_report = record { added = []; modified = []; deleted = []; touched = text "a" ∷ [] }

abbrev nothing_done : RevertReport
nothing_done = record { restored = []; removed = []; skipped_extra = [] }

detect_full_example :
    (fe : FileEntry) × (lookup (text "a") (by_path head_manifest.files) ≡ some fe)
    × (crates.blake3 (text "h") ≡ fe.content)
unfolding detect crates rel_str list_eq nat_eq excluded lookup has
detect_full_example =
    detect_full crates tombstone_json.is_utf8 clean_world.tree head_manifest (text "a" ∷ [])
      (text "h") stat refl refl refl refl

check_then_apply-saved_example :
    (fe : FileEntry) × (lookup (text "a") (by_path head_manifest.files) ≡ some fe)
    × (crates.blake3 (text "h") ≡ fe.content)
unfolding create_from_actor crates zstd manifest_json tombstone_json list_eq nat_eq tombstones
    excluded sanitize_rel rel_str components split body put_object has head trim serialize
    put_manifest check_then_apply load detect lookup insert set_head parse_hash pack
    get_manifest_bytes deserialize validate first rest apply is_tombstoned resolve_dest names_of
check_then_apply-saved_example =
    check_then_apply-saved crates zstd manifest_json tombstone_json 30 head_manifest false
      clean_world clean_report nothing_done made_id head_manifest (text "a" ∷ []) (text "h") stat
      refl refl refl refl refl

abbrev pub key : Bytes
key = crates.blake3 (text "key")

abbrev order : FleetOrder
order = record {
  format = text "respawn-fleet-order/v1";
  pubkey = crates.hex_encode (ed25519.public_key key);
  payload = text "payload";
  sig = crates.hex_encode (ed25519.sign key (text "payload"));
}

abbrev payload : OrderPayload
payload = record {
  kind = text "respawn-fleet-order";
  fabric_id = text "f0";
  target = crates.hex_encode made_id;
  ts = 40;
  nonce = text "n";
}

abbrev order_json : OrderJson
order_json = record {
  order_from_slice = λ b. some order;
  payload_from_str = λ b. some payload;
  parse_u64 = λ b. none;
}

abbrev fleet_world : World
fleet_world = record clean_world {
  fabric = record made.1 { fabric_id_file = some (text "f0"); fleet_key_file = some order.pubkey };
}

apply-IsAuthentic_example :
    (p : OrderPayload) × IsAuthentic crates ed25519 order_json (text "order") fleet_world.fabric p
    × (0 ≤ p.ts)
unfolding Fleet.apply ed25519 create_from_actor crates zstd manifest_json tombstone_json list_eq
    nat_eq tombstones excluded sanitize_rel rel_str components split body put_object has head trim
    serialize put_manifest check_then_apply load detect lookup insert set_head parse_hash pack
    get_manifest_bytes deserialize validate first rest apply is_tombstoned resolve_dest names_of
    json fill check_signature fabric_id has_manifest record_event
apply-IsAuthentic_example =
    apply-IsAuthentic crates zstd manifest_json tombstone_json json ed25519 order_json 50
      (text "f1") (text "order") made_id none false fleet_world refl
