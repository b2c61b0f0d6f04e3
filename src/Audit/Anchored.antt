-- ===== src/Audit/Anchored.antt =====
-- `tip_is_prefix` against a state recorded earlier: what was covered is still there, and later
-- work is no obstacle.
use respawn.Base.{
  ℕ, zero, suc, ◌+◌, ◌%◌, ◌<◌, ◌≤◌, Bytes, ◌≡◌, refl, ◌∙◌, ap, sym, ◌⊎◌, inl, inr, false, Option,
  none, some, List, [], ◌∷◌, ◌++◌, arith, length, list_eq, nat_eq, leb, Bool-cases, Option-cases,
  All,
}
use mathlib.Core.Option.{some-injective}
use mathlib.Core.List.{Memᴰ}
use mathlib.Core.List.Memᴰ.{head, tail}
use mathlib.Core.Path.{subst, subst₂}
use respawn.Errors.{ok, Result}
use respawn.Lines.{is_blank}
use respawn.Crates
use respawn.Crates.{Crates, Collision}
use respawn.Audit.{
  AuditEntry, Json, IsLawful, succ64, u64_mod, is_bad, prefix_lines, tip_is_prefix, check_tip,
  read_lines, verify, tip, body_of,
}
use respawn.Audit.Chain.{
  entries_of, first_entries, advance-eq-mod, tip_of, IsChain, Reads, done, skip, entry,
  Reads-entries_of, chains_eq, HasText,
}
use respawn.Audit.Verify.{
  tip_lines-Reads, is_bad-eq_false, is_bad_link, valid_report, verify-eq_valid,
}
use respawn.Audit.Record.{IsSound, Event, HasTime, record_all, record_all-IsSound}

module _ (c : Crates) (j : Json) where
  -- The covered entries of an accepted log.
  pub record Covered (ls : List (Option Bytes)) (k : ℕ) (prev : Bytes) (seq : ℕ) (tip : Bytes)
      : Type 0 where
    pub entries : List AuditEntry
    pub reads : first_entries j k ls ≡ some entries
    pub chain : IsChain c j prev seq entries
    pub count : length entries ≡ k
    pub ends : tip_of prev entries ≡ tip

  check_tip_ok :
      (len seq : ℕ) (tip prev : Bytes)
      → check_tip c j len tip prev seq ≡ ok tt
      → (len ≤ seq) × (prev ≡ tip)
  check_tip_ok len seq tip prev h = ground arith

  covered_none :
      (ls : List (Option Bytes)) (len seq : ℕ) (tip prev : Bytes)
      → len ≤ seq
      → prefix_lines c j ls len tip prev seq ≡ ok tt
      → prev ≡ tip
  unfolding prefix_lines
  covered_none [] len seq tip prev b h = (check_tip_ok len seq tip prev h).1
  covered_none (none ∷ ls) len seq tip prev b h = absurd (cc)
  covered_none (some l ∷ ls) len seq tip prev b h = elim (Bool-cases (is_blank l)) [
    | inl w ↦ covered_none ls len seq tip prev b (rw w at h)
    | inr w ↦ (check_tip_ok len seq tip prev (ground arith)).1
  ]

  prefix_lines_sound :
      (ls : List (Option Bytes)) (k len seq : ℕ) (tip prev : Bytes)
      → len ≡ seq + k
      → len < u64_mod
      → prefix_lines c j ls len tip prev seq ≡ ok tt
      → Covered ls k prev seq tip
  unfolding prefix_lines first_entries tip_of
  prefix_lines_sound ls zero len seq tip prev e b h = record {
    entries = [];
    reads = refl;
    chain = tt;
    count = refl;
    ends = covered_none ls len seq tip prev (omega arith) h;
  }
  prefix_lines_sound [] (suc k) len seq tip prev e b h =
      absurd (omega (arith, (check_tip_ok len seq tip prev h).0))
  prefix_lines_sound (none ∷ ls) (suc k) len seq tip prev e b h = absurd (cc)
  prefix_lines_sound (some l ∷ ls) (suc k) len seq tip prev e b h = elim (Bool-cases (is_blank l)) [
    | inl w ↦
        let r = prefix_lines_sound ls (suc k) len seq tip prev e b (rw w at h) in
        record {
          entries = r.entries;
          reads = rw w r.reads;
          chain = r.chain;
          count = r.count;
          ends = r.ends;
        }
    | inr w ↦ elim (Option-cases (j.from_str l)) [
      | inl p ↦ absurd (ground arith)
      | inr (x, p) ↦
          let good : is_bad c j x prev seq ≡ false = ground arith in
          let r = prefix_lines_sound ls k len (suc seq) tip x.hash (omega arith) b (ground arith) in
          let next : succ64 seq ≡ suc seq = omega arith in
          record {
            entries = x ∷ r.entries;
            reads = ground (arith, r.reads);
            chain = (is_bad-eq_false c j x prev seq good, rw next r.chain);
            count = omega (arith, r.count);
            ends = r.ends;
          }
    ]
  ]

  prefix_lines_complete :
      {ls : List (Option Bytes)} {es : List AuditEntry} (fs : List AuditEntry)
      (gs : List AuditEntry) (seq len : ℕ) (tip prev : Bytes)
      → Reads j ls es
      → es ≡ fs ++ gs
      → len ≡ seq + length fs
      → len < u64_mod
      → IsChain c j prev seq fs
      → tip_of prev fs ≡ tip
      → prefix_lines c j ls len tip prev seq ≡ ok tt
  unfolding prefix_lines tip_of
  prefix_lines_complete [] gs seq len tip prev done s e b h t = ground arith
  prefix_lines_complete (f ∷ fs) gs seq len tip prev done s e b h t = absurd (cc)
  prefix_lines_complete fs gs seq len tip prev (skip w r) s e b h t =
      rw w (prefix_lines_complete fs gs seq len tip prev r s e b h t)
  prefix_lines_complete [] gs seq len tip prev (entry w p r) s e b h t = ground arith
  prefix_lines_complete (f ∷ fs) gs seq len tip prev (entry {l = l} {e = x} w p r) s e b h t =
      let same : x ≡ f = cc in
      let p' : j.from_str l ≡ some f = p ∙ ap some same in
      let below : leb len seq ≡ false = ground arith in
      let next : succ64 seq ≡ suc seq = omega arith in
      let rest =
        prefix_lines_complete fs gs (suc seq) len tip f.hash r (cc) (omega arith) b (rw next at h.1)
          t in
      rw (w, below, p', is_bad_link c j f prev seq h.0) rest

module _ (c : Crates) (j : Json) where
  -- The first `len` entries of an accepted log are a chain that ends in the given hash.
  pub tip_is_prefix_sound :
      (log : Option Bytes) (len : ℕ) (tip : Bytes)
      → 0 < len
      → len < u64_mod
      → tip_is_prefix c j log len tip ≡ ok tt
      → Covered c j (read_lines j log) len [] 0 tip
  unfolding tip_is_prefix
  tip_is_prefix_sound log zero tip p b h = absurd (omega arith)
  tip_is_prefix_sound none (suc len) tip p b h = absurd (cc)
  tip_is_prefix_sound (some file) (suc len) tip p b h =
      prefix_lines_sound c j (read_lines j (some file)) (suc len) (suc len) 0 tip [] (omega arith) b
        h

  tip_lem :
      (log : Option Bytes) (es : List AuditEntry)
      → entries_of j (read_lines j log) ≡ some es
      → IsChain c j [] 0 es
      → tip j log ≡ ok (length es % u64_mod, tip_of [] es)
  unfolding tip
  tip_lem log es reads chain =
      tip_lines-Reads c j [] 0 (Reads-entries_of j (read_lines j log) es reads) chain
      ∙ ap (λ n. ok (n, tip_of [] es)) (omega (arith, advance-eq-mod 0 es))

  tip_parts :
      (m n : ℕ) (t u : Bytes)
      → ◌≡◌ {A = Result (ℕ × Bytes)} (ok (m, t)) (ok (n, u))
      → (n ≡ m) × (u ≡ t)
  tip_parts m n t u h = (ground arith, ground arith)

  -- The text that is hashed for one of these entries.
  pub record IsTextOf (es : List AuditEntry) (text : Bytes) : Type 0 where
    pub entry : AuditEntry
    pub listed : Memᴰ entry es
    pub serialized : j.tuple_to_string (body_of entry) ≡ some text

  AreTextsOf :
      (gs es : List AuditEntry)
      → ((e : AuditEntry) → Memᴰ e es → Memᴰ e gs)
      → All (λ e. HasText c j (IsTextOf gs) (body_of e)) es
  AreTextsOf gs [] sub = tt
  AreTextsOf gs (e ∷ es) sub = (
    λ line p. record { entry = e; listed = sub e (head refl); serialized = p },
    AreTextsOf gs es (λ f m. sub f (tail m)),
  )

  mem_left : (e : AuditEntry) (es fs : List AuditEntry) → Memᴰ e es → Memᴰ e (es ++ fs)
  mem_left e [] fs h = elim h [ ]
  mem_left e (x ∷ es) fs (head p) = head p
  mem_left e (x ∷ es) fs (tail h) = tail (mem_left e es fs h)

  mem_right : (e : AuditEntry) (es fs : List AuditEntry) → Memᴰ e fs → Memᴰ e (es ++ fs)
  mem_right e [] fs h = h
  mem_right e (x ∷ es) fs h = tail (mem_right e es fs h)

  -- The log begins with these entries, or with as many others, such that two texts of the ones or
  -- the others have one hash.
  abbrev pub BeginsWith : List AuditEntry → List (Option Bytes) → Type 0
  BeginsWith es ls =
      (first_entries j (length es) ls ≡ some es)
      ⊎ ((fs : List AuditEntry) × (first_entries j (length es) ls ≡ some fs)
          × Collision c (IsTextOf (es ++ fs)))

  covered_genuine :
      Crates.IsLawful c
      → IsLawful j
      → (now : Option Bytes) (es : List AuditEntry) (len : ℕ) (t : Bytes) → length es < u64_mod
      → IsChain c j [] 0 es
      → (len ≡ length es % u64_mod) × (t ≡ tip_of [] es)
      → tip_is_prefix c j now len t ≡ ok tt
      → BeginsWith es (read_lines j now)
  unfolding first_entries
  covered_genuine L M now [] len t small chain (n, u) h = inl refl
  covered_genuine L M now (e ∷ es) len t small chain (n, u) h =
      let size : len ≡ length (e ∷ es) = omega arith in
      let r = tip_is_prefix_sound now len t (omega arith) (omega arith) h in
      elim (chains_eq c j L M (IsTextOf (e ∷ es ++ r.entries)) [] [] 0 r.entries (e ∷ es)
        (AreTextsOf _ r.entries (λ x m. mem_right x (e ∷ es) r.entries m))
        (AreTextsOf _ (e ∷ es) (λ x m. mem_left x (e ∷ es) r.entries m)) (r.count ∙ size) r.chain
        chain (r.ends ∙ u)) [
          | inl (_, same) ↦
              inl
                (subst₂ (λ k fs. first_entries j k (read_lines j now) ≡ some fs) size same r.reads)
          | inr hit ↦ inr (
            r.entries,
            subst (λ k. first_entries j k (read_lines j now) ≡ some r.entries) size r.reads,
            hit,
          )
        ]

  -- Take the count and the last hash of a valid log, as an anchor does. Any log, however it was
  -- written, that `tip_is_prefix` accepts for them begins with exactly the entries of that log,
  -- or with as many others, and two of the texts that are hashed for the ones and the others have
  -- one BLAKE3 hash.
  pub tip_is_prefix-genuine :
      Crates.IsLawful c
      → IsLawful j
      → (before now : Option Bytes) (es : List AuditEntry) (len : ℕ) (t : Bytes)
      → entries_of j (read_lines j before) ≡ some es
      → length es < u64_mod
      → verify c j before ≡ ok (valid_report (length es))
      → tip j before ≡ ok (len, t)
      → tip_is_prefix c j now len t ≡ ok tt
      → BeginsWith es (read_lines j now)
  tip_is_prefix-genuine L M before now es len t reads small valid tipped accepted =
      let (fs, reads', chain, _) = (verify-eq_valid c j before _).0 valid in
      let same : fs ≡ es = some-injective _ _ (sym reads' ∙ reads) in
      let chain' : IsChain c j [] 0 es = subst (IsChain c j [] 0) same chain in
      let tips = sym (tip_lem before es reads chain') ∙ tipped in
      covered_genuine L M now es len t small chain' (tip_parts _ _ _ _ tips) accepted

  prefix_accepted :
      (log : Option Bytes) (es added : List AuditEntry)
      → length es < u64_mod
      → IsSound c j log (es ++ added)
      → IsChain c j [] 0 es
      → tip_is_prefix c j log (length es) (tip_of [] es) ≡ ok tt
  unfolding tip_is_prefix read_lines entries_of
  prefix_accepted log [] added small s chain = refl
  prefix_accepted none (e ∷ es) added small s chain = absurd (ground (arith, s.reads))
  prefix_accepted (some file) (e ∷ es) added small s chain =
      prefix_lines_complete c j (e ∷ es) added 0 (length (e ∷ es)) _ []
        (Reads-entries_of j (read_lines j (some file)) _ s.reads) refl (omega arith) small chain
        refl

  -- An anchored log that only `record` has written to since is accepted for the anchored state.
  pub tip_is_prefix-record_all :
      IsLawful j
      → {log : Option Bytes} {es : List AuditEntry} (evs : List Event) → IsSound c j log es
      → length es < u64_mod
      → All HasTime evs
      → (t : Bytes) × (tip j log ≡ ok (length es, t))
        × (tip_is_prefix c j (record_all c j evs log) (length es) t ≡ ok tt)
  unfolding tip_is_prefix
  tip_is_prefix-record_all M {log} {es} evs s small h =
      let (added, grown, _) = record_all-IsSound c j M evs s h in
      (
        tip_of [] es,
        tip_lem log es s.reads s.chain ∙ ap (λ n. ok (n, tip_of [] es)) (omega arith),
        prefix_accepted (record_all c j evs log) es added small grown s.chain,
      )
