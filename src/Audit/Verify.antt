-- ===== src/Audit/Verify.antt =====
-- `verify` accepts exactly the logs whose entries form a chain, and `tip` and the scan of
-- `record` then agree with it.
use respawn.Base.{
  ℕ, ◌%◌, Bytes, ◌≡◌, refl, ◌∙◌, ap, ◌↔◌, inl, inr, true, false, Option, none, some, List, [], ◌∷◌,
  arith, length, list_eq, nat_eq, Bool-cases, Option-cases,
}
use respawn.Errors.{ok}
use respawn.Lines.{is_blank}
use respawn.Crates.{Crates}
use respawn.Audit.{
  AuditEntry, Json, IsLawful, succ64, body_of, entry_hash, is_bad, verify_lines, last_entry,
  tip_lines, VerifyReport, u64_mod, verify, read_lines,
}
use respawn.Audit.Chain.{
  entries_of, advance, tip_of, IsChain, IsLink, Reads, done, skip, entry, Reads-entries_of,
  advance-eq-mod,
}

abbrev pub valid_report : ℕ → VerifyReport
valid_report n = record { entries = n; valid = true; first_bad = none }

module _ (c : Crates) (j : Json) where
  -- The test of the loops, and what the chain asks of an entry.
  pub is_bad-eq_false :
      (e : AuditEntry) (prev : Bytes) (n : ℕ) → is_bad c j e prev n ≡ false → IsLink c j prev n e
  is_bad-eq_false e prev n h =
      let p : e.prev ≡ prev = ground arith in
      (
        ground arith,
        p,
        ground (arith, ap (λ b. entry_hash c j (record (body_of e) { prev = b })) p),
      )

  pub is_bad_link :
      (e : AuditEntry) (prev : Bytes) (n : ℕ) → IsLink c j prev n e → is_bad c j e prev n ≡ false
  is_bad_link e prev n h =
      ground (arith, ap (λ b. entry_hash c j (record (body_of e) { prev = b })) h.1)

  record IsAccepted (ls : List (Option Bytes)) (prev : Bytes) (n m : ℕ) : Type 0 where
    entries : List AuditEntry
    reads : entries_of j ls ≡ some entries
    chain : IsChain c j prev n entries
    count : m ≡ advance n entries

  verify_lines_sound :
      (ls : List (Option Bytes)) (prev : Bytes) (n m : ℕ) (bad : Option ℕ)
      → verify_lines c j ls prev n ≡ ok (record { entries = m; valid = true; first_bad = bad })
      → IsAccepted ls prev n m
  unfolding verify_lines entries_of advance
  verify_lines_sound [] prev n m bad h = record {
    entries = [];
    reads = refl;
    chain = tt;
    count = ground arith;
  }
  verify_lines_sound (none ∷ ls) prev n m bad h = absurd (cc)
  verify_lines_sound (some l ∷ ls) prev n m bad h = elim (Bool-cases (is_blank l)) [
    | inl b ↦
        let r = verify_lines_sound ls prev n m bad (rw b at h) in
        record { entries = r.entries; reads = rw b r.reads; chain = r.chain; count = r.count }
    | inr b ↦ elim (Option-cases (j.from_str l)) [
      | inl p ↦ absurd (ground arith)
      | inr (e, p) ↦
          let good : is_bad c j e prev n ≡ false = ground arith in
          let r = verify_lines_sound ls e.hash (succ64 n) m bad (ground arith) in
          record {
            entries = e ∷ r.entries;
            reads = ground (arith, r.reads);
            chain = (is_bad-eq_false e prev n good, r.chain);
            count = r.count;
          }
    ]
  ]

  pub verify_lines_complete :
      {ls : List (Option Bytes)} (prev : Bytes) (n : ℕ) {es : List AuditEntry}
      → Reads j ls es
      → IsChain c j prev n es
      → verify_lines c j ls prev n ≡ ok (valid_report (advance n es))
  unfolding verify_lines advance
  verify_lines_complete prev n done h = refl
  verify_lines_complete prev n (skip b r) h = rw b (verify_lines_complete prev n r h)
  verify_lines_complete prev n (entry {e = e} b p r) h =
      rw (b, p, is_bad_link e prev n h.0) (verify_lines_complete e.hash (succ64 n) r h.1)

  pub tip_lines-Reads :
      {ls : List (Option Bytes)} (prev : Bytes) (n : ℕ) {es : List AuditEntry}
      → Reads j ls es
      → IsChain c j prev n es
      → tip_lines j ls n prev ≡ ok (advance n es, tip_of prev es)
  unfolding tip_lines advance tip_of
  tip_lines-Reads prev n done h = refl
  tip_lines-Reads prev n (skip b r) h = rw b (tip_lines-Reads prev n r h)
  tip_lines-Reads prev n (entry {e = e} b p r) h =
      rw (b, p, h.0.0) (tip_lines-Reads e.hash (succ64 n) r h.1)

  pub last_entry-Reads :
      IsLawful j
      → {ls : List (Option Bytes)} (prev : Bytes) (n : ℕ) {es : List AuditEntry} → Reads j ls es
      → IsChain c j prev n es
      → last_entry j ls n prev ≡ (advance n es, tip_of prev es)
  unfolding last_entry advance tip_of
  last_entry-Reads M prev n done h = refl
  last_entry-Reads M prev n (skip {l = l} b r) h =
      rw (M.blank l b, last_entry) (last_entry-Reads M prev n r h)
  last_entry-Reads M prev n (entry {e = e} b p r) h =
      rw (p, h.0.0, last_entry) (last_entry-Reads M e.hash (succ64 n) r h.1)

  -- `verify` reports a log valid with `m` entries exactly when its lines read as a chain that
  -- starts at 0 with no hash before it, of `m` entries modulo 2^64.
  pub verify-eq_valid :
      (log : Option Bytes) (m : ℕ)
      → (verify c j log ≡ ok (valid_report m)) ↔ (
          (es : List AuditEntry) × (entries_of j (read_lines j log) ≡ some es)
          × IsChain c j [] 0 es
          × (m ≡ length es % u64_mod))
  unfolding verify
  verify-eq_valid log m = (
    λ h.
        let r = verify_lines_sound (read_lines j log) [] 0 m none h in
        (r.entries, r.reads, r.chain, r.count ∙ omega (arith, advance-eq-mod 0 r.entries)),
    λ (es, reads, chain, count).
        verify_lines_complete [] 0 (Reads-entries_of j _ es reads) chain
        ∙ ap (λ k. ok (valid_report k)) (omega (arith, advance-eq-mod 0 es)),
  )
