-- ===== src/Tests/Core.antt =====
-- Paths, hashes, the object store and the log.
use respawn.Base.{
  Bytes, text, ◌≡◌, refl, ◌≢◌, ◌≤◌, ◌⊎◌, ◌↔◌, true, Option, none, some, [], ◌∷◌, ◌++◌, List, map,
  all, length, All, arith, nat_eq, list_eq, option_eq, ◌%◌,
}
use respawn.Base.Dict.{lookup, insert, has}
use respawn.Lines.{lines}
use respawn.Errors
use respawn.Errors.{ok, err}
use respawn.Paths.{components, normalize, join, sanitize_rel, split, body, normal, is_normal}
use respawn.Paths.Contained.{sanitize_rel-IsContained, sanitize_rel-path_of, IsName}
use respawn.Crates.{Collision, IsHash, hash_hex, parse_hash, is_hash_name}
use respawn.Crates.Laws.{parse_hash-hash_hex}
use respawn.Store.{max_object_size, init, get_object, put_object, head, set_head, Fabric}
use respawn.Store.Laws.{IsHeld, IsHonest, get_object-genuine, get_object-put_object, head-set_head}
use respawn.Audit.{
  verify, tip, tip_is_prefix, read_lines, AuditEntry, record_event, last_entry, entry_hash, u64_mod,
}
use respawn.Audit.Verify.{valid_report, verify-eq_valid}
use respawn.Audit.Chain.{entries_of, IsChain, advance, tip_of}
use respawn.Audit.Record.{
  Event, record_all, HasTime, next_entry, verify-record_all, IsSound, what_of,
}
use respawn.Audit.Anchored.{BeginsWith, tip_is_prefix-genuine, tip_is_prefix-record_all}
use respawn.Tests.Instances.{crates, crates-IsLawful, zstd, zstd-IsLawful, json, json-IsLawful}

paths_rejected :
    (sanitize_rel (text "../x") ≡ err (Errors.unsafe_path (text "../x")))
    × (sanitize_rel (text "/etc/passwd") ≡ err (Errors.unsafe_path (text "/etc/passwd")))
    × (sanitize_rel (text "a/../../x") ≡ err (Errors.unsafe_path (text "a/../../x")))
unfolding sanitize_rel components split body list_eq nat_eq
paths_rejected = (refl, refl, refl)

paths_accepted :
    (sanitize_rel (text "src/a.rs") ≡ ok (text "src/a.rs"))
    × (sanitize_rel (text "a//b/./c") ≡ ok (text "a//b/./c"))
unfolding sanitize_rel components split body list_eq nat_eq
paths_accepted = (refl, refl)

sanitize_rel-IsContained_example :
    (normalize [] (components (join (text "/w") (text "a/./b")))
      ≡ normalize [] (components (text "/w")) ++ components (text "a/./b"))
    × (all is_normal (components (text "a/./b")) ≡ true)
    × (components (text "a/./b") ≢ [])
unfolding sanitize_rel components split body list_eq nat_eq
sanitize_rel-IsContained_example =
    sanitize_rel-IsContained (text "/w") (text "a/./b") (text "a/./b") refl refl

src-IsName : IsName (text "src")
unfolding list_eq nat_eq
src-IsName = record {
  ne_nil = λ e. cc;
  ne_dot = λ e. ground arith;
  ne_dot_dot = λ e. ground arith;
  no_slash = refl;
  no_nul = refl;
  no_backslash = refl;
}

a_rs-IsName : IsName (text "a.rs")
unfolding list_eq nat_eq
a_rs-IsName = record {
  ne_nil = λ e. cc;
  ne_dot = λ e. ground arith;
  ne_dot_dot = λ e. ground arith;
  no_slash = refl;
  no_nul = refl;
  no_backslash = refl;
}

abbrev names : List Bytes
names = text "src" ∷ text "a.rs" ∷ []

sanitize_rel-path_of_example :
    (sanitize_rel (text "src/a.rs") ≡ ok (text "src/a.rs"))
    × (components (text "src/a.rs") ≡ normal (text "src") ∷ normal (text "a.rs") ∷ [])
sanitize_rel-path_of_example =
    sanitize_rel-path_of names (λ e. cc) (src-IsName, (a_rs-IsName, tt)) (omega arith)

-- The hash of this text.
abbrev some_hash : Bytes
some_hash = crates.blake3 (text "hello")

parse_hash-hash_hex_example :
    (parse_hash crates (hash_hex crates some_hash) ≡ ok some_hash)
    × (is_hash_name (hash_hex crates some_hash) ≡ true)
parse_hash-hash_hex_example =
    parse_hash-hash_hex crates crates-IsLawful some_hash
      (crates-IsLawful.blake3-IsHash (text "hello"))

abbrev stored : Fabric
stored = (put_object crates zstd (text "hello") init).1

init-IsHonest : IsHonest crates zstd init
unfolding lookup
init-IsHonest = record { at = λ n p e. absurd (cc) }

get_object-put_object_example :
    (get_object crates zstd some_hash stored ≡ ok (text "hello"))
    ⊎ Collision crates (λ b. (b ≡ text "hello") ⊎ IsHeld crates zstd init b)
unfolding put_object crates zstd list_eq nat_eq has lookup insert
get_object-put_object_example =
    get_object-put_object crates zstd crates-IsLawful zstd-IsLawful (text "hello") some_hash init
      stored init-IsHonest (omega arith) refl

get_object-genuine_example :
    (length (text "hello") ≤ max_object_size)
    × ((text "hello" ≡ text "hello")
        ⊎ Collision crates (λ b. (b ≡ text "hello") ⊎ (b ≡ text "hello")))
unfolding put_object get_object crates zstd list_eq nat_eq has lookup insert
get_object-genuine_example =
    get_object-genuine crates zstd crates-IsLawful (text "hello") some_hash (text "hello") init
      stored refl refl

head-set_head_example :
    ((h : Bytes) → IsHash h → head crates (set_head crates (some h) stored) ≡ ok (some h))
    × (head crates (set_head crates none stored) ≡ ok none)
head-set_head_example = head-set_head crates crates-IsLawful stored

abbrev events : List Event
events =
    record { ts = 7; event = text "snap"; detail = text "v1" }
    ∷ record { ts = 9; event = text "revert"; detail = text "v0" }
    ∷ []

abbrev log : Option Bytes
log = record_all crates json events none

events-HasTime : All HasTime events
events-HasTime = (omega arith, (omega arith, tt))

verify-record_all_example :
    (verify crates json log ≡ ok (valid_report 2))
    × ((es : List AuditEntry) × (entries_of json (read_lines json log) ≡ some es)
        × (map what_of es ≡ events))
verify-record_all_example = verify-record_all crates json json-IsLawful events events-HasTime

-- The two entries of this log.
abbrev first_entry : AuditEntry
first_entry = next_entry crates json [] 7 (text "snap") (text "v1")

abbrev both : List AuditEntry
both = first_entry ∷ next_entry crates json (first_entry ∷ []) 9 (text "revert") (text "v0") ∷ []

log_read : entries_of json (read_lines json log) ≡ some both
unfolding entries_of read_lines record_all record_event json crates list_eq nat_eq lines entry_hash
    last_entry advance tip_of
log_read = refl

later : Event
later = record { ts = 12; event = text "purge"; detail = [] }

abbrev grown : Option Bytes
grown = record_all crates json (later ∷ []) log

abbrev both_tip : Bytes
both_tip = tip_of [] both

verify-eq_valid_example : (verify crates json log ≡ ok (valid_report 2)) ↔ (
    (es : List AuditEntry) × (entries_of json (read_lines json log) ≡ some es)
    × IsChain crates json [] 0 es
    × (2 ≡ length es % u64_mod))
verify-eq_valid_example = verify-eq_valid crates json log 2

log-tip : tip json log ≡ ok (2, both_tip)
unfolding tip read_lines record_all record_event json crates list_eq nat_eq lines entry_hash
    last_entry advance tip_of
log-tip = refl

grown_accepted : tip_is_prefix crates json grown 2 both_tip ≡ ok tt
unfolding tip_is_prefix later read_lines record_all record_event json crates list_eq nat_eq lines
    entry_hash last_entry advance tip_of
grown_accepted = refl

tip_is_prefix-genuine_example : BeginsWith crates json both (read_lines json grown)
tip_is_prefix-genuine_example =
    tip_is_prefix-genuine crates json crates-IsLawful json-IsLawful log grown both 2 both_tip
      log_read (omega arith) verify-record_all_example.0 log-tip grown_accepted

both-IsSound : IsSound crates json log both
unfolding read_lines record_all record_event json crates list_eq nat_eq lines entry_hash last_entry
    advance tip_of
both-IsSound = record {
  terminated = refl;
  reads = log_read;
  chain = ((refl, refl, refl), ((refl, refl, refl), tt));
}

tip_is_prefix-record_all_example :
    (t : Bytes) × (tip json log ≡ ok (2, t))
    × (tip_is_prefix crates json (record_all crates json (later ∷ []) log) 2 t ≡ ok tt)
unfolding later
tip_is_prefix-record_all_example =
    tip_is_prefix-record_all crates json json-IsLawful (later ∷ []) both-IsSound (omega arith)
      (omega arith, tt)
