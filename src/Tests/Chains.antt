-- ===== src/Tests/Chains.antt =====
-- Lists of snapshots, purges, orders, surgical undo and guard at concrete inputs.
use respawn.Base.{
  suc, ◌+◌, Bytes, text, true, false, Option, none, some, List, [], ◌∷◌, map, length, ◌≡◌, ◌≢◌,
  refl, ◌⊎◌, All, nat_eq, list_eq, option_eq,
}
use respawn.Base.Dict.{keys, lookup, has, insert, erase}
use native.Mathlib.Decide.{ℕ_discrete}
use respawn.Base.Sort.{sort, sort_with}
use respawn.Audit.{decimal, entry_hash, last_entry, read_lines, record_event, tip, tip_lines}
use respawn.Drift
use respawn.Drift.{by_path, detect, judge, missing_paths, seen_paths, survey}
use respawn.Errors.{Result, ok, err}
use respawn.Lines.{trim, lines}
use respawn.Paths.{sanitize_rel, components, split, body, names_of, excluded, rel_str}
use respawn.Crates.{is_hash_name, hash_hex, parse_hash}
use respawn.Store.{
  Fabric, init, head, set_head, head_content, put_object, put_manifest, try_lock, get_object,
  get_manifest_bytes, has_manifest,
}
use respawn.Manifest.{FileEntry, validate_files, Manifest, serialize, deserialize, validate, load}
use respawn.Tree.{World, Names, Node}
use respawn.Snapshot.{
  create_from_actor, chunk_file, chunk_file_stable, ignore_patterns, is_skipped, keep_captured,
  put_chunks, scan,
}
use respawn.Listing.{orphans, Entry, list, walk_parents}
use respawn.Listing.Ends.{walk_parents-terminates}
use respawn.Listing.Complete.{IsListing, list-IsListing}
use respawn.Erase
use respawn.Erase.{PurgeReport, slashes}
use respawn.Erase.Gathered.{is_shared}
use respawn.Erase.Shared.{run-kept}
use respawn.Erase.Recorded.{verify_cert-run}
use respawn.Certificate.{verify_cert}
use respawn.Fleet.{log_event, checked_order}
use respawn.Fleet.Mint
use respawn.Fleet.Mint.{order, checked_order-order}
use respawn.History.{resolve, prefix_hits}
use respawn.Signing.{decode_sized, get_key, read_secret_file}
use respawn.Purge.{is_purged, is_tombstoned, parse_tombstones, tombstones}
use respawn.Anchor.{fabric_id}
use respawn.Surgery.{
  undo_actor, last, trace, trace_manifest, trace_written, trace_removed, trace_other, touch,
  note_content, undone_files, keep_head, bring_back, resolve_path,
}
use respawn.Surgery.Kept.{IsUndone, undo_actor-IsUndone}
use respawn.Commands.{cmd_verify, check_objects}
use respawn.Commands.Objects.{IsReadable, cmd_verify-IsReadable}
use respawn.Audit
use respawn.Guard
use respawn.Guard.{
  env_actor, guard_detail, revert_if, GuardReport, ExitStatus, on_fail, after_command,
}
use respawn.Guard.Undone.{run-not_started, after_command-exact}
use respawn.Revert.{
  apply, check_ancestors, create_parents, deepest_dirs, extras, is_extra, is_removable, materialize,
  needs_write, place, prune_empty_dirs, read_chunks, refuse_purged, remove_dirs, remove_files,
  resolve_dest, restore_file, restore_files, rewrite, rewrite_file, tidy,
}
use respawn.Revert.Restore.{IsPlaced}
use respawn.Revert.Exact.{AreOutside, AreCanonical}
use respawn.Tests.Instances.{json, fill, pack, first, rest, crates, crates-IsLawful, zstd}
use respawn.Tests.Formats.{ed25519, ed25519-IsLawful, manifest_json, tombstone_json}
use respawn.Tests.Records.{
  line_json, line_json-IsLawful, cert_writer, cert_reader, cert_reader-IsReadBack, order_writer,
  order_reader, order_reader-IsReadBack,
}
use respawn.Tests.Fabric.{
  entry, manifest, head_manifest, clean_world, walk, cut, world, key, captured,
}

abbrev stored_bytes : Bytes
stored_bytes = value (manifest_json.to_vec head_manifest)
  where
    value : Option Bytes → Bytes
    value (some b) = b
    value none = []

abbrev stored_id : Bytes
stored_id = crates.blake3 stored_bytes

-- A fabric with one snapshot, which is HEAD.
abbrev stored : Fabric
stored = record init {
  objects = (crates.hex_encode captured.content, text "h") ∷ [];
  manifests = (crates.hex_encode stored_id, stored_bytes) ∷ [];
  head_file = some (crates.hex_encode stored_id);
}

walk_parents-terminates_example :
    walk_parents crates manifest_json stored (suc (length stored.manifests) + 5) (some stored_id) []
    ≡ walk_parents crates manifest_json stored (suc (length stored.manifests)) (some stored_id) []
walk_parents-terminates_example =
    walk_parents-terminates crates manifest_json stored 5 (some stored_id)

abbrev entries : List Entry
entries = (stored_id, head_manifest) ∷ []

list-IsListing_example : IsListing crates manifest_json stored entries
unfolding list crates manifest_json head list_eq nat_eq trim has insert lookup sort_with
    is_hash_name parse_hash orphans walk_parents deserialize load validate validate_files
    sanitize_rel components split body get_manifest_bytes first rest pack fill ℕ_discrete
list-IsListing_example = list-IsListing crates crates-IsLawful manifest_json stored entries refl

-- The fabric of the snapshot, with an identity and a key.
abbrev keyed : World
keyed = record clean_world {
  fabric = record stored {
    fabric_id_file = some (text "f0");
    secret_file = some (crates.hex_encode key);
  };
}

abbrev purged : Result PurgeReport × World
purged =
    Erase.run crates manifest_json line_json ed25519 json cert_writer 60 (text "f1") (text "a")
      keyed

run-kept_example :
    (lookup (crates.hex_encode key) purged.1.fabric.objects
      ≡ lookup (crates.hex_encode key) keyed.fabric.objects)
    ⊎ ((ch : Bytes) × (crates.hex_encode key ≡ hash_hex crates ch)
        × (is_shared (slashes (text "a")) ch entries ≡ false))
unfolding list crates manifest_json head list_eq nat_eq trim has insert lookup sort_with
    is_hash_name parse_hash orphans walk_parents deserialize load validate validate_files
    sanitize_rel components split body get_manifest_bytes first rest pack fill ℕ_discrete
run-kept_example =
    run-kept crates manifest_json line_json ed25519 json cert_writer 60 (text "f1") (text "a")
      (crates.hex_encode key) keyed entries refl

abbrev purge_report : PurgeReport
purge_report = value purged.0
  where
    value : Result PurgeReport → PurgeReport
    value (ok r) = r
    value (err e) = record {
      certificate = [];
      chunks_removed = 0;
      chunks_retained_shared = 0;
      manifests_touched = 0;
      live_removed = false;
    }

verify_cert-run_example :
    (verify_cert crates ed25519 cert_reader line_json
      (text "f2")
      purge_report.certificate
      none
      purged.1.fabric).0
    ≡ ok (slashes (text "a"))
unfolding Erase.run crates manifest_json head list_eq nat_eq trim has insert lookup sort_with
    is_hash_name parse_hash orphans walk_parents deserialize load validate validate_files
    sanitize_rel components split body get_manifest_bytes first rest pack fill ℕ_discrete list
    line_json cert_writer ed25519 json fabric_id decimal entry_hash last_entry read_lines
    record_event tip tip_lines erase Erase.add_all Erase.append_tombstone Erase.certify Erase.choose
    Erase.find_target Erase.gather Erase.gather_files Erase.purge_target Erase.remove_chunks
    Erase.remove_live Erase.remove_objects Erase.sign_cert log_event lines names_of is_purged
    is_tombstoned parse_tombstones tombstones decode_sized get_key read_secret_file
verify_cert-run_example =
    verify_cert-run crates manifest_json line_json ed25519 json cert_writer crates-IsLawful
      ed25519-IsLawful cert_reader line_json-IsLawful cert_reader-IsReadBack 60 (text "f1")
      (text "f2") (text "f0") (text "a") keyed purged.1 purge_report refl refl refl refl

abbrev minted : Result Bytes × Fabric
minted =
    order crates ed25519 order_writer 70 4 (text "f1") (crates.hex_encode stored_id) keyed.fabric

abbrev order_file : Bytes
order_file = value minted.0
  where
    value : Result Bytes → Bytes
    value (ok b) = b
    value (err e) = []

abbrev member : Fabric
member = record init { fleet_key_file = some (crates.hex_encode (ed25519.public_key key)) }

checked_order-order_example :
    (id own : Bytes) × (resolve crates (crates.hex_encode stored_id) keyed.fabric ≡ ok id)
    × ((fabric_id (text "f1") keyed.fabric).0 ≡ ok own)
    × (checked_order crates json ed25519 order_reader order_file member
        ≡ ok (Mint.payload_of crates ed25519 order_writer 70 4 own id))
unfolding order crates ed25519 order_writer resolve list_eq nat_eq has insert lookup trim fabric_id
    decimal is_hash_name parse_hash Mint.sign_order prefix_hits lines decode_sized get_key
    read_secret_file has_manifest pack fill head ℕ_discrete manifest_json
checked_order-order_example =
    checked_order-order crates ed25519 order_writer crates-IsLawful ed25519-IsLawful order_reader
      order_reader-IsReadBack json 70 4 (text "f1") (crates.hex_encode stored_id) order_file
      (crates.hex_encode (ed25519.public_key key)) key keyed.fabric member refl refl refl refl

abbrev bot_entry : FileEntry
bot_entry = record entry { content = crates.blake3 (text "bot"); chunks = [] }

-- Another wrote `a`, then the actor wrote over it and added `b`.
abbrev by_bot : Manifest
by_bot = record manifest {
  files = bot_entry ∷ record bot_entry { path = text "b" } ∷ [];
  actor = some (text "bot");
}

abbrev undone : Manifest
undone = record by_bot { files = entry ∷ []; message = text "surgical undo of actor 'bot'" }

undo_actor-IsUndone_example :
    (head_m : Manifest) × (last (manifest ∷ by_bot ∷ []) ≡ some head_m)
    × IsUndone (text "bot") (manifest ∷ by_bot ∷ []) head_m undone (text "a" ∷ text "b" ∷ [])
unfolding undo_actor list_eq option_eq nat_eq by_path has crates insert trace trace_manifest
    trace_written trace_removed trace_other touch note_content undone_files keep_head bring_back
    resolve_path sort sort_with lookup fill ℕ_discrete
undo_actor-IsUndone_example =
    undo_actor-IsUndone (text "bot") (manifest ∷ by_bot ∷ []) undone (text "a" ∷ text "b" ∷ []) refl

abbrev empty_world : World
empty_world = record { fabric = init; tree = clean_world.tree }

abbrev snapped : Result Bytes × Fabric
snapped =
    create_from_actor crates zstd cut manifest_json tombstone_json 9 none (text "guard: ls") none
      walk init

abbrev snapped_id : Bytes
snapped_id = value snapped.0
  where
    value : Result Bytes → Bytes
    value (ok b) = b
    value (err e) = []

abbrev not_started : Result GuardReport × World
not_started =
    Guard.run crates zstd cut manifest_json tombstone_json json 9 (text "ls" ∷ []) on_fail false
      none none walk (λ w. none) empty_world

run-not_started_example :
    ((report : GuardReport) → not_started.0 ≢ ok report)
    × (not_started.1.tree ≡ empty_world.tree)
    × (head crates not_started.1.fabric ≡ ok none)
unfolding create_from_actor crates zstd manifest_json tombstone_json try_lock head list_eq trim
    tombstones excluded nat_eq sanitize_rel rel_str components split body put_object has serialize
    ℕ_discrete insert lookup parse_hash lines parse_tombstones chunk_file chunk_file_stable
    ignore_patterns is_skipped keep_captured put_chunks scan put_manifest set_head first pack rest
    fill env_actor
run-not_started_example =
    run-not_started crates zstd cut manifest_json tombstone_json json crates-IsLawful 9 (text "ls")
      [] on_fail false none none walk (λ w. none) empty_world none snapped_id (λ w. refl) refl refl
      (λ h e. absurd (cc e)) refl

-- The command changed `a` and wrote `b`, and then failed.
abbrev spoiled : World
spoiled = record { fabric = stored; tree = world.tree }

abbrev failed : ExitStatus
failed = record { code = some 1; signal = none }

abbrev guarded : Result GuardReport × World
guarded =
    after_command crates zstd cut manifest_json tombstone_json json 9 on_fail true (text "ls")
      stored_id failed spoiled

abbrev guard_report : GuardReport
guard_report = record {
  snapshot = stored_id;
  exit_code = some 1;
  signal = none;
  drift = record { added = text "b" ∷ []; modified = text "a" ∷ []; deleted = []; touched = [] };
  reverted = true;
}

outside : AreOutside head_manifest.files
unfolding names_of components split body excluded list_eq nat_eq
outside = (refl, tt)

canonical : AreCanonical head_manifest.files
unfolding names_of components split body rel_str list_eq nat_eq
canonical = (refl, tt)

after_command-exact_example :
    (guard_report.reverted ≡ true)
    × All (IsPlaced crates guarded.1.tree) head_manifest.files
    × ((names : Names) (node : Node)
        → lookup names guarded.1.tree ≡ some node
        → is_extra (map (λ f. f.path) head_manifest.files) names node ≡ false)
    × (guarded.1.fabric.head_file ≡ some (head_content crates (some stored_id)))
unfolding after_command load get_manifest_bytes lookup list_eq crates manifest_json nat_eq pack
    deserialize validate sanitize_rel first components split body option_eq apply ℕ_discrete decimal
    entry_hash last_entry read_lines record_event erase has insert sort sort_with by_path detect
    Drift.is_tracked judge missing_paths seen_paths survey log_event guard_detail revert_if lines
    trim validate_files excluded names_of rel_str is_tombstoned parse_tombstones tombstones
    check_ancestors create_parents deepest_dirs extras is_extra is_removable materialize needs_write
    place prune_empty_dirs read_chunks refuse_purged remove_dirs remove_files resolve_dest
    restore_file restore_files rewrite rewrite_file tidy ignore_patterns get_object set_head fill
    rest zstd tombstone_json json
after_command-exact_example =
    after_command-exact crates zstd cut manifest_json tombstone_json json crates-IsLawful 9 on_fail
      true (text "ls") stored_id failed spoiled guarded.1 head_manifest guard_report refl refl
      outside canonical (tt, tt) refl

cmd_verify-IsReadable_example :
    (Audit.verify crates json stored.audit_log
      ≡ ok (record { entries = 0; valid = true; first_bad = none }))
    × (true ≡ true)
    × All
        (λ full. is_hash_name full ≡ true → IsReadable crates zstd stored full)
        (keys stored.objects)
unfolding cmd_verify check_objects Audit.verify read_lines is_hash_name nat_eq crates parse_hash
    get_object lookup list_eq zstd
cmd_verify-IsReadable_example =
    cmd_verify-IsReadable crates zstd stored json
      (record { entries = 0; valid = true; first_bad = none }) (1, 0) refl
