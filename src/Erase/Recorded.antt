-- ===== src/Erase/Recorded.antt =====
-- What a purge that succeeds leaves behind.
use respawn.Base.{
  ℕ, Bytes, text, true, false, none, some, List, [], ◌∷◌, ◌++◌, contains, length, ◌==◌, ==_refl,
  list_eq, nat_eq, ◌≡◌, refl, ap, inl, inr, arith, Option-cases,
}
use respawn.Errors.{ok, Result-cases}
use respawn.Lines.{newline, lines, lines-append, is_terminated, trim}
use respawn.Crates
use respawn.Crates.{Crates, hash_hex}
use respawn.Store.{Fabric}
use respawn.Tree.{World}
use respawn.Audit.{Json}
use respawn.Manifest.{ManifestJson}
use respawn.Purge.{Tombstone, TombstoneJson, tombstones, parse_tombstones}
use respawn.Signing
use respawn.Signing.{Ed25519, get_key}
use respawn.Anchor.Made.{check_signature-sign}
use respawn.Certificate.{PurgePayload, PurgeCert, CertJson, checked_cert, verify_cert}
use respawn.Erase.Shared.{find_target-IsChosen}
use respawn.Erase.{
  find_target, slashes, CertWriter, PurgeReport, certify, payload_of, tombstone_of, old_lines, run,
}
use respawn.Erase.Lines.{parse_tombstones-append, is_recorded-append}
use respawn.Erase.Done.{fabric_id-eq, purge_target-IsErasedOf, is_purged-tombstones}

-- What serde_json does with tombstones: a line of text that reads back as it was.
pub record IsLawful (t : TombstoneJson) : Type 0 where
  pub line :
      (x : Tombstone) (l : Bytes)
      → t.to_string x ≡ some l
      → (t.from_str (trim l) ≡ some x)
        × ((trim l == []) ≡ false)
        × (contains l newline ≡ false)
        × (contains l 13 ≡ false)
  pub utf8 :
      (x : Tombstone) (file l : Bytes)
      → t.to_string x ≡ some l
      → t.is_utf8 file ≡ true
      → t.is_utf8 (file ++ l ++ newline ∷ []) ≡ true

-- What was serialized of a certificate reads back as it was.
pub record IsReadBack (o : CertWriter) (r : CertJson) : Type 0 where
  pub payload :
      (p : PurgePayload) (b : Bytes)
      → o.payload_to_string p ≡ some b
      → r.payload_from_str b ≡ some p
  pub cert : (f : PurgeCert) (b : Bytes) → o.cert_to_vec f ≡ some b → r.cert_from_slice b ≡ some f

module _ (c : Crates) (m : ManifestJson) (t : TombstoneJson) (d : Ed25519) (a : Json)
    (o : CertWriter) (L : Crates.IsLawful c) (D : Signing.IsLawful d) where
  module _ (r : CertJson) (T : IsLawful t) (O : IsReadBack o r) where
    checked_cert-certify :
        (raw cert : Bytes) (p : PurgePayload)
        → length raw ≡ 32
        → p.kind ≡ text "respawn-purge"
        → certify c m t d a o raw p ≡ ok cert
        → checked_cert c d r cert none ≡ ok p
    unfolding checked_cert certify list_eq nat_eq
    checked_cert-certify raw cert p size kind e = elim (Option-cases (o.payload_to_string p)) [
      | inl bad ↦ absurd (cc (rw (certify, bad) at e))
      | inr (packed, good) ↦
          let file : PurgeCert = record {
            format = text "respawn-purge/v1";
            pubkey = hash_hex c (d.public_key raw);
            payload = packed;
            sig = hash_hex c (d.sign raw packed);
          } in
          elim (Option-cases (o.cert_to_vec file)) [
            | inl bad ↦ absurd (cc (rw (certify, good, bad) at e))
            | inr (bytes, written) ↦
                let same : bytes ≡ cert = ground (arith, (rw (certify, good, written) at e)) in
                rw
                  (
                    checked_cert,
                    ← same,
                    O.cert file bytes written,
                    O.payload p packed good,
                    kind,
                    check_signature-sign c d L D raw packed size,
                  )
                  refl
          ]
    ]

    parse_old :
        (s : Fabric) (ts : List Tombstone)
        → tombstones t s ≡ ok ts
        → t.is_utf8 (old_lines c m t s.purged_file) ≡ true
        → parse_tombstones t (lines (old_lines c m t s.purged_file)) ≡ ok ts
    unfolding tombstones lines parse_tombstones
    parse_old s ts e utf8 = elim (Option-cases s.purged_file) [
      | inl missing ↦ rw missing (rw (tombstones, missing) at e)
      | inr (file, there) ↦
          let text_file = (rw there at utf8) in rw there (rw (tombstones, there, text_file) at e)
    ]

    tombstones-appended :
        (s v : Fabric) (ts : List Tombstone) (x : Tombstone) (line : Bytes)
        → tombstones t s ≡ ok ts
        → is_terminated (old_lines c m t s.purged_file) ≡ true
        → t.is_utf8 (old_lines c m t s.purged_file) ≡ true
        → t.to_string x ≡ some line
        → v.purged_file ≡ some (old_lines c m t s.purged_file ++ line ++ newline ∷ [])
        → tombstones t v ≡ ok (ts ++ x ∷ [])
    unfolding tombstones
    tombstones-appended s v ts x line e ended utf8 good appended =
        let (read, some_text, one_line, no_return) = T.line x line good in
        let old = old_lines c m t s.purged_file in
        let longer = lines-append old line ended one_line no_return in
        rw (tombstones, appended, T.utf8 x old line good utf8, longer)
          (parse_tombstones-append t (lines old) line x ts read some_text (parse_old s ts e utf8))

    -- Where run returns, verify_cert accepts the certificate that it made, for the fabric as run left
    -- it: the signature, the identity of the fabric and the tombstone of the path. For a fabric that
    -- has an identity, and tombstones as run leaves them. Assumed: the documented behaviour of the
    -- crates.
    pub verify_cert-run :
        (now : ℕ) (fresh later id rel : Bytes) (w v : World) (report : PurgeReport)
        → w.fabric.fabric_id_file ≡ some id
        → is_terminated (old_lines c m t w.fabric.purged_file) ≡ true
        → t.is_utf8 (old_lines c m t w.fabric.purged_file) ≡ true
        → run c m t d a o now fresh rel w ≡ (ok report, v)
        → (verify_cert c d r t later report.certificate none v.fabric).0 ≡ ok (slashes rel)
    unfolding run verify_cert
    verify_cert-run now fresh later id rel w v report has_id ended utf8 e =
        elim (Result-cases (find_target c m t rel w)) [
          | inr (bad, p) ↦ absurd (cc (rw p at e))
          | inl (target, p) ↦
              let (es, l, chosen) = find_target-IsChosen c m t rel w target p in
              let (ts, read) =
                is_purged-tombstones c m t d a o L D (slashes rel) target.content w.fabric
                  chosen.fresh in
              let done =
                purge_target-IsErasedOf c m t d a o L D now fresh id target w v report has_id
                  (rw p at e) in
              let payload = payload_of c m t d a o now target done.counts done.covered (trim id) in
              let recorded =
                tombstones-appended w.fabric v.fabric ts (tombstone_of c m t now target) done.line
                  read ended utf8 done.serialized done.appended in
              rw
                (
                  checked_cert-certify done.raw report.certificate payload done.size refl
                      done.certified,
                  fabric_id-eq c m t d a o L D later id v.fabric done.same_id,
                  ==_refl (trim id),
                  recorded,
                  is_recorded-append ts (tombstone_of c m t now target) payload refl refl,
                )
                (ap ok chosen.same_path)
        ]
