-- ===== src/Audit/Record.antt =====
-- A log that is only written by `record` verifies, with one entry for each call.
use respawn.Base.{
  ℕ, suc, ◌%◌, ◌<◌, Bytes, ◌≡◌, refl, ◌∙◌, ap, sym, true, Option, none, some, List, [], ◌∷◌, ◌++◌,
  arith, length, list_eq, nat_eq, map, All,
}
use mathlib.Core.List.{map-append, append-nil, append_assoc}
use mathlib.Core.Path.{subst, subst₂}
use respawn.Errors.{ok}
use respawn.Lines.{newline, lines, lines-append, is_terminated, terminated_append}
use respawn.Crates.{Crates}
use respawn.Audit.{
  AuditEntry, Json, IsLawful, IsWritten, u64_mod, new_entry, record_event, last_entry, content,
  read_lines, verify, tip,
}
use respawn.Audit.Chain.{
  entries_of, entries_of-append, advance, advance-eq-mod, tip_of, IsChain, IsChain-append,
  Reads-entries_of,
}
use respawn.Audit.Verify.{valid_report, last_entry-Reads, verify-eq_valid, tip_lines-Reads}

-- The state in which `record` leaves a log with the entries `es`: every line is ended, and the
-- entries read form a chain.
pub record IsSound (c : Crates) (j : Json) (log : Option Bytes) (es : List AuditEntry)
    : Type 0 where
  pub terminated : is_terminated (content log) ≡ true
  pub reads : entries_of j (read_lines j log) ≡ some es
  pub chain : IsChain c j [] 0 es

read_lines-content :
    (j : Json) (log : Option Bytes) → read_lines j (some (content log)) ≡ read_lines j log
unfolding read_lines lines
read_lines-content j none = refl
read_lines-content j (some file) = refl

pub read_lines-append :
    (j : Json) (log : Option Bytes) (l : Bytes) (e : AuditEntry)
    → IsWritten j e l
    → is_terminated (content log) ≡ true
    → read_lines j (some (content log ++ l ++ newline ∷ [])) ≡ read_lines j log ++ some l ∷ []
unfolding read_lines
read_lines-append j log l e w t =
    rw (lines-append (content log) l t w.one_line w.no_return, map-append, w.utf8)
      (ap (λ ls. ls ++ some l ∷ []) (read_lines-content j log))

advance-lt : (n : ℕ) (es : List AuditEntry) → n < u64_mod → advance n es < u64_mod
advance-lt n es h = omega (arith, advance-eq-mod n es h)

module _ (c : Crates) (j : Json) where
  -- The entry that `record` writes after the entries `es`.
  abbrev pub next_entry : List AuditEntry → ℕ → Bytes → Bytes → AuditEntry
  next_entry es ts event detail = new_entry c j (advance 0 es) (tip_of [] es) ts event detail

  record_event_lem :
      (ts : ℕ) (event detail : Bytes) (log : Option Bytes) (seq : ℕ) (prev line : Bytes)
      → last_entry j (read_lines j log) 0 [] ≡ (seq, prev)
      → j.to_string (new_entry c j seq prev ts event detail) ≡ some line
      → record_event c j ts event detail log ≡ (ok tt, some (content log ++ line ++ newline ∷ []))
  unfolding record_event
  record_event_lem ts event detail log seq prev line p q = rw (p, record_event) (rw q)

  -- A sound log verifies, with its number of entries modulo 2^64, and `tip` reads its last hash.
  pub IsSound-verify :
      {log : Option Bytes} {es : List AuditEntry}
      → IsSound c j log es
      → (verify c j log ≡ ok (valid_report (length es % u64_mod)))
        × (tip j log ≡ ok (length es % u64_mod, tip_of [] es))
  unfolding tip
  IsSound-verify {log} {es} s = (
    (verify-eq_valid c j log _).1 (es, s.reads, s.chain, refl),
    tip_lines-Reads c j [] 0 (Reads-entries_of j (read_lines j log) es s.reads) s.chain
        ∙ ap (λ n. ok (n, tip_of [] es)) (omega (arith, advance-eq-mod 0 es)),
  )

  pub IsSound-none : IsSound c j none []
  unfolding read_lines entries_of
  IsSound-none = record { terminated = refl; reads = refl; chain = tt }

module _ (c : Crates) (j : Json) (M : IsLawful j) where
  -- A call of `record` on a sound log succeeds, and the log is sound with one more entry.
  pub record_event-IsSound :
      (ts : ℕ) (event detail : Bytes) {log : Option Bytes} {es : List AuditEntry}
      → IsSound c j log es
      → ts < u64_mod
      → (after : Option Bytes) × (record_event c j ts event detail log ≡ (ok tt, after))
        × IsSound c j after (es ++ next_entry c j es ts event detail ∷ [])
  record_event-IsSound ts event detail {log} {es} s h =
      let e = next_entry c j es ts event detail in
      let (line, w) = M.writes e (advance-lt 0 es (omega arith)) h in
      let scan =
        last_entry-Reads c j M [] 0 (Reads-entries_of j (read_lines j log) es s.reads) s.chain in
      (
        some (content log ++ line ++ newline ∷ []),
        record_event_lem c j ts event detail log _ _ line scan w.printed,
        record {
          terminated = terminated_append (content log) line;
          reads =
              rw
                (
                  read_lines-append j log line e w s.terminated,
                  entries_of-append j (read_lines j log) line e w.not_blank w.parsed,
                  s.reads,
                )
                refl;
          chain = IsChain-append c j [] 0 es (e ∷ []) s.chain ((refl, refl, refl), tt);
        },
      )

-- One call of `record`.
pub record Event : Type 0 where
  pub ts : ℕ
  pub event : Bytes
  pub detail : Bytes

abbrev pub HasTime : Event → Type 0
HasTime e = e.ts < u64_mod

module _ (c : Crates) (j : Json) where
  -- The log after the calls, from the oldest on.
  unfoldable pub record_all : List Event → Option Bytes → Option Bytes
  record_all [] log = log
  record_all (e ∷ es) log = record_all es (record_event c j e.ts e.event e.detail log).1

abbrev pub what_of : AuditEntry → Event
what_of e = record { ts = e.ts; event = e.event; detail = e.detail }

module _ (c : Crates) (j : Json) (M : IsLawful j) where
  pub record_all-IsSound :
      (evs : List Event) {log : Option Bytes} {es : List AuditEntry}
      → IsSound c j log es
      → All HasTime evs
      → (added : List AuditEntry) × IsSound c j (record_all c j evs log) (es ++ added)
        × (map what_of added ≡ evs)
  unfolding record_all
  record_all-IsSound [] {log} {es} s h = ([], subst (IsSound c j log) (sym (append-nil es)) s, refl)
  record_all-IsSound (e ∷ evs) {log} {es} s h =
      let (after, writes, sound) = record_event-IsSound c j M e.ts e.event e.detail s h.0 in
      let (added, grown, same) = record_all-IsSound evs sound h.1 in
      let new = next_entry c j es e.ts e.event e.detail in
      (
        new ∷ added,
        subst₂ (λ l fs. IsSound c j (record_all c j evs l) fs) (sym (ap (λ p. p.1) writes))
            (append_assoc es (new ∷ []) added) grown,
        ap (λ l. e ∷ l) same,
      )

  length-what_of : (es : List AuditEntry) → length (map what_of es) ≡ length es
  length-what_of [] = refl
  length-what_of (e ∷ es) = ap suc (length-what_of es)

  -- After any calls of `record`, from no log on, `verify` finds the log valid with one entry for
  -- each call (modulo 2^64), and the entries read back hold the events in the order of the calls.
  pub verify-record_all :
      (evs : List Event)
      → All HasTime evs
      → (verify c j (record_all c j evs none) ≡ ok (valid_report (length evs % u64_mod)))
        × ((es : List AuditEntry) × (entries_of j (read_lines j (record_all c j evs none))
              ≡ some es)
            × (map what_of es ≡ evs))
  verify-record_all evs h =
      let (es, s, same) = record_all-IsSound evs (IsSound-none c j) h in
      (
        (IsSound-verify c j s).0
            ∙ ap (λ n. ok (valid_report (n % u64_mod))) (sym (length-what_of es) ∙ ap length same),
        (es, s.reads, same),
      )
