-- ===== src/Audit.antt =====
-- src/audit.rs: the hash-chained log. The file `audit.jsonl` is its bytes, or `none` where there
-- is no file. serde_json and the test for UTF-8 that reading a line makes are parameters.
pub mod Chain
pub mod Verify
pub mod Record
pub mod Anchored
use respawn.Base.{
  ℕ, zero, suc, ◌+◌, ◌*◌, ◌/◌, ◌%◌, ◌^◌, Bytes, text, ◌≡◌, Bool, true, false, ◌||◌, not, Option,
  none, some, List, [], ◌∷◌, ◌++◌, map, leb, ltb, ◌==◌, nat_eq, list_eq, contains, if◌then◌else◌,
  ◌<◌,
}
use respawn.Errors.{Result, ok, err, io, corrupt, refuse_if, ◌>>=◌, ◌>>◌}
use respawn.Lines.{lines, is_blank, newline}
use respawn.Crates.{Crates, hash_hex, hash_bytes}

pub record AuditEntry : Type 0 where
  pub seq : ℕ
  pub ts : ℕ
  pub event : Bytes
  pub detail : Bytes
  pub prev : Bytes
  pub hash : Bytes

-- The tuple that `entry_hash` serializes.
pub record Body : Type 0 where
  pub seq : ℕ
  pub ts : ℕ
  pub event : Bytes
  pub detail : Bytes
  pub prev : Bytes

-- serde_json at the types of this module, and `str::from_utf8(..).is_ok()`.
pub record Json : Type 0 where
  pub tuple_to_string : Body → Option Bytes
  pub to_string : AuditEntry → Option Bytes
  pub from_str : Bytes → Option AuditEntry
  pub is_utf8 : Bytes → Bool

-- u64 arithmetic wraps.
abbrev pub u64_mod : ℕ
u64_mod = 2 ^ 64

abbrev pub succ64 : ℕ → ℕ
succ64 n = (n + 1) % u64_mod

-- The line that `to_string` gives for an entry: one line, not blank, that parses to the entry.
pub record IsWritten (j : Json) (e : AuditEntry) (line : Bytes) : Type 0 where
  pub printed : j.to_string e ≡ some line
  pub parsed : j.from_str line ≡ some e
  pub one_line : contains line newline ≡ false
  pub no_return : contains line 13 ≡ false
  pub not_blank : is_blank line ≡ false
  pub utf8 : j.is_utf8 line ≡ true

-- What serde_json documents: numbers and texts serialize, and read back as they were; control
-- characters in a text are escaped; blank input is no value.
pub record IsLawful (j : Json) : Type 0 where
  pub tuple_total : (b : Body) → (line : Bytes) × (j.tuple_to_string b ≡ some line)
  pub tuple_injective :
      (a b : Body) (line : Bytes)
      → j.tuple_to_string a ≡ some line
      → j.tuple_to_string b ≡ some line
      → a ≡ b
  pub writes :
      (e : AuditEntry) → e.seq < u64_mod → e.ts < u64_mod → (line : Bytes) × IsWritten j e line
  pub blank : (l : Bytes) → is_blank l ≡ true → j.from_str l ≡ none

abbrev decimal_digits : ℕ → ℕ → Bytes → Bytes
decimal_digits zero n acc = acc
decimal_digits (suc fuel) n acc =
    let rest = decimal_digits fuel (n / 10) ((48 + n % 10) ∷ acc) in
    if ltb n 10 then (48 + n) ∷ acc else rest

-- `{n}` of a u64, which has at most 20 digits.
unfoldable pub decimal : ℕ → Bytes
decimal n = decimal_digits 20 n []

-- A file that is missing has no lines. A line that is not UTF-8 is an error when it is read.
unfoldable pub read_lines : Json → Option Bytes → List (Option Bytes)
read_lines j none = []
read_lines j (some file) = map (λ l. if j.is_utf8 l then some l else none) (lines file)

module _ (c : Crates) (j : Json) where
  unfoldable pub entry_hash : Body → Bytes
  entry_hash b = elim (j.tuple_to_string b) [
    | some line ↦ hash_hex c (hash_bytes c line)
    | none ↦ hash_hex c (hash_bytes c (decimal b.seq ++ decimal b.ts))
  ]

-- The loop of `record`: it stops at a line that cannot be read, and passes over one that does
-- not parse.
unfoldable pub last_entry : Json → List (Option Bytes) → ℕ → Bytes → ℕ × Bytes
last_entry j [] seq prev = (seq, prev)
last_entry j (none ∷ ls) seq prev = (seq, prev)
last_entry j (some l ∷ ls) seq prev = elim (j.from_str l) [
  | none ↦ last_entry j ls seq prev
  | some e ↦ last_entry j ls (succ64 e.seq) e.hash
]

abbrev pub content : Option Bytes → Bytes
content none = []
content (some file) = file

module _ (c : Crates) (j : Json) where
  abbrev pub new_entry : ℕ → Bytes → ℕ → Bytes → Bytes → AuditEntry
  new_entry seq prev ts event detail = record {
    seq = seq;
    ts = ts;
    event = event;
    detail = detail;
    prev = prev;
    hash =
        entry_hash c j (record { seq = seq; ts = ts; event = event; detail = detail; prev = prev });
  }

  -- `record`, at the time `ts`. The file is there, if empty, before the entry is serialized.
  unfoldable pub record_event : ℕ → Bytes → Bytes → Option Bytes → Result (Unit {0}) × Option Bytes
  record_event ts event detail log =
      let (seq, prev) = last_entry j (read_lines j log) 0 [] in
      elim (j.to_string (new_entry seq prev ts event detail)) [
        | none ↦ (err (corrupt "json"), some (content log))
        | some line ↦ (ok tt, some (content log ++ line ++ newline ∷ []))
      ]

pub record VerifyReport : Type 0 where
  pub entries : ℕ
  pub valid : Bool
  pub first_bad : Option ℕ

abbrev pub body_of : AuditEntry → Body
body_of e = record { seq = e.seq; ts = e.ts; event = e.event; detail = e.detail; prev = e.prev }

module _ (c : Crates) (j : Json) where
  -- `e.seq != n || e.prev != prev || e.hash != expected`, where `expected` is made with `prev`.
  abbrev pub is_bad : AuditEntry → Bytes → ℕ → Bool
  is_bad e prev n =
      not (e.seq == n)
      || not (e.prev == prev)
      || not (e.hash == entry_hash c j (record (body_of e) { prev = prev }))

  -- The loop of `verify`.
  unfoldable pub verify_lines : List (Option Bytes) → Bytes → ℕ → Result VerifyReport
  verify_lines [] prev n = ok (record { entries = n; valid = true; first_bad = none })
  verify_lines (none ∷ ls) prev n = err (io "stream did not contain valid UTF-8")
  verify_lines (some l ∷ ls) prev n =
      let skip = verify_lines ls prev n in
      if is_blank l then skip else elim (j.from_str l) [
        | none ↦ err (corrupt "audit line unparsable")
        | some e ↦
            let more = verify_lines ls e.hash (succ64 n) in
            if is_bad e prev n
            then ok (record { entries = n; valid = false; first_bad = some e.seq })
            else more
      ]

  unfoldable pub verify : Option Bytes → Result VerifyReport
  unfolding verify_lines
  verify log = verify_lines (read_lines j log) [] 0

  -- The loop of `tip_is_prefix`. `seq` stays below `len`, a u64, so that it does not wrap.
  abbrev pub check_tip : ℕ → Bytes → Bytes → ℕ → Result (Unit {0})
  check_tip len expected_tip prev seq = do
    refuse_if (ltb seq len) (corrupt "audit log truncated")
    refuse_if (not (prev == expected_tip)) (corrupt "audit tip diverged from anchor")
    ok tt

  unfoldable pub prefix_lines : List (Option Bytes) → ℕ → Bytes → Bytes → ℕ → Result (Unit {0})
  prefix_lines [] len expected_tip prev seq = check_tip len expected_tip prev seq
  prefix_lines (none ∷ ls) len expected_tip prev seq = err (io "stream did not contain valid UTF-8")
  prefix_lines (some l ∷ ls) len expected_tip prev seq =
      let skip = prefix_lines ls len expected_tip prev seq in
      if is_blank l
      then skip
      else if leb len seq
      then check_tip len expected_tip prev seq
      else elim (j.from_str l) [
        | none ↦ err (corrupt "audit line unparsable")
        | some e ↦
            let more = prefix_lines ls len expected_tip e.hash (suc seq) in
            if is_bad e prev seq
            then err (corrupt "audit chain broken inside anchored region")
            else more
      ]

  unfoldable pub tip_is_prefix : Option Bytes → ℕ → Bytes → Result (Unit {0})
  unfolding prefix_lines
  tip_is_prefix log zero expected_tip = ok tt
  tip_is_prefix none (suc len) expected_tip = err (corrupt "audit log missing since anchor")
  tip_is_prefix (some file) (suc len) expected_tip =
      prefix_lines (read_lines j (some file)) (suc len) expected_tip [] 0

-- The loop of `tip`.
unfoldable pub tip_lines : Json → List (Option Bytes) → ℕ → Bytes → Result (ℕ × Bytes)
tip_lines j [] n last = ok (n, last)
tip_lines j (none ∷ ls) n last = err (io "stream did not contain valid UTF-8")
tip_lines j (some l ∷ ls) n last =
    let skip = tip_lines j ls n last in
    if is_blank l then skip else elim (j.from_str l) [
      | none ↦ err (corrupt "audit line unparsable")
      | some e ↦ tip_lines j ls (succ64 e.seq) e.hash
    ]

unfoldable pub tip : Json → Option Bytes → Result (ℕ × Bytes)
unfolding tip_lines
tip j log = tip_lines j (read_lines j log) 0 []
