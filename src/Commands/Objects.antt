-- ===== src/Commands/Objects.antt =====
-- What `verify --objects` has looked at.
use respawn.Base.{
  ℕ, suc, Bytes, Bool, true, false, not, List, [], ◌∷◌, All, ltb, nat_eq, ◌≡◌, refl, sym, ◌∙◌, ap,
  inl, inr, arith, Bool-cases,
}
use respawn.Base.Dict.{keys}
use respawn.Errors.{Result, ok, err, corrupt, refuse_if, ◌>>◌, Result-cases}
use respawn.Crates.{Crates, parse_hash, is_hash_name}
use respawn.Store.{Fabric, Zstd, get_object}
use respawn.Store.Laws.{get_object-eq_ok}
use respawn.Audit.{Json, VerifyReport}
use respawn.Audit
use respawn.Commands.{check_objects, cmd_verify}

report_of : VerifyReport → Result (VerifyReport × (ℕ × ℕ)) → VerifyReport
report_of r (ok x) = x.0
report_of r (err e) = r

unless_broken :
    (valid : Bool) (report r : VerifyReport) (found counts : ℕ × ℕ)
    → ◌>>◌ {B = VerifyReport × (ℕ × ℕ)}
        (refuse_if (not valid) (corrupt "audit chain invalid"))
        (ok (report, found))
      ≡ ok (r, counts)
    → (valid ≡ true) × (report ≡ r)
unfolding report_of
unless_broken true report r found counts e = (refl, ap (report_of r) e)
unless_broken false report r found counts e = absurd (cc e)

module _ (c : Crates) (z : Zstd) (s : Fabric) where
  -- A file with the name of an object can be read.
  pub record IsReadable (full : Bytes) : Type 0 where
    pub hash : Bytes
    pub content : Bytes
    pub named : parse_hash c full ≡ ok hash
    pub read : get_object c z hash s ≡ ok content
    pub genuine : c.blake3 content ≡ hash

  check_objects-IsReadable :
      (names : List Bytes) (counts : ℕ × ℕ)
      → check_objects c z names s ≡ ok counts
      → counts.1 ≡ 0
      → All (λ full. is_hash_name full ≡ true → IsReadable full) names
  unfolding check_objects
  check_objects-IsReadable [] counts e none_bad = tt
  check_objects-IsReadable (full ∷ names) counts e none_bad =
      elim (Bool-cases (is_hash_name full)) [
        | inr foreign ↦ (
          (λ named. absurd (cc)),
          check_objects-IsReadable names counts (rw (check_objects, foreign) at e) none_bad,
        )
        | inl named ↦ elim (Result-cases (parse_hash c full)) [
          | inr (bad, p) ↦ absurd (cc (rw (check_objects, named, p) at e))
          | inl (h, p) ↦ elim (Result-cases (check_objects c z names s)) [
            | inr (bad, q) ↦ absurd (cc (rw (check_objects, named, p, q) at e))
            | inl (later, q) ↦ elim (Result-cases (get_object c z h s)) [
              | inr (bad, r) ↦
                  let one : ok (later.0, suc later.1) ≡ ok counts =
                    (rw (check_objects, named, p, q, r) at e) in
                  absurd (ground (arith, ap bad_of one))
              | inl (content, r) ↦
                  let one : ok (suc later.0, later.1) ≡ ok counts =
                    (rw (check_objects, named, p, q, r) at e) in
                  (
                    (λ _. record {
                      hash = h;
                      content = content;
                      named = p;
                      read = r;
                      genuine = (get_object-eq_ok c z h content s r).0;
                    }),
                    check_objects-IsReadable names later q (ground (arith, ap bad_of one)),
                  )
            ]
          ]
        ]
      ]
    where
      bad_of : Result (ℕ × ℕ) → ℕ
      bad_of (ok counts) = counts.1
      bad_of (err e) = 0

  -- Where `verify --objects` succeeds, the log is one that verify finds valid, and every file of the
  -- store under the name of an object is read by get_object, with content of the hash that is
  -- the name.
  pub cmd_verify-IsReadable :
      (a : Json) (r : VerifyReport) (counts : ℕ × ℕ)
      → cmd_verify c z a true s ≡ ok (r, counts)
      → (Audit.verify c a s.audit_log ≡ ok r)
        × (r.valid ≡ true)
        × All (λ full. is_hash_name full ≡ true → IsReadable full) (keys s.objects)
  unfolding cmd_verify
  cmd_verify-IsReadable a r counts e = elim (Result-cases (Audit.verify c a s.audit_log)) [
    | inr (bad, p) ↦ absurd (cc (rw (cmd_verify, p) at e))
    | inl (report, p) ↦ elim (Result-cases (check_objects c z (keys s.objects) s)) [
      | inr (bad, q) ↦ absurd (cc (rw (cmd_verify, p, q) at e))
      | inl (found, q) ↦ elim (Bool-cases (ltb 0 found.1)) [
        | inl some_bad ↦ absurd (cc (rw (cmd_verify, p, q, some_bad) at e))
        | inr none_bad ↦
            let (valid, same) =
              unless_broken report.valid report r found counts
                (rw (cmd_verify, p, q, none_bad) at e) in
            (
              p ∙ ap ok same,
              ap (λ x. x.valid) (sym same) ∙ valid,
              check_objects-IsReadable (keys s.objects) found q (ground arith),
            )
      ]
    ]
  ]
