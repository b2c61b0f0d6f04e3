-- ===== src/Drift/Full.antt =====
-- What a full survey that finds nothing says of the worktree: it is the gate of a revert.
use respawn.Base.{
  Bytes, Bool, true, false, Option, none, some, List, [], ◌∷◌, contains, list_eq, nat_eq, ◌≡◌, refl,
  ap, ◌∙◌, sym, arith, Bool-cases, inl, inr, ==_refl,
}
use respawn.Base.Dict.{Dict, lookup}
use respawn.Base.Sort.{sort}
use respawn.Paths.{rel_str}
use respawn.Crates.{Crates}
use respawn.Manifest.{FileEntry, Manifest}
use respawn.Tree.{Stat, file, Names, Tree}
use respawn.Snapshot.{ignore_patterns}
use respawn.Drift
use respawn.Drift.{
  DriftReport, by_path, is_tracked, judge, survey, seen_paths, missing_paths, detect, ignore_file,
  note_verdict,
}
use respawn.Drift.Diffs.{contains-sort}

module _ (c : Crates) where
  note_verdict-old :
      (v : Drift.Verdict) (p q : Bytes) (r : DriftReport)
      → contains (note_verdict c v p r).added q ≡ false
      → contains (note_verdict c v p r).modified q ≡ false
      → (contains r.added q ≡ false) × (contains r.modified q ≡ false)
  note_verdict-old Drift.added p q r a m = (ground arith, m)
  note_verdict-old Drift.modified p q r a m = (a, ground arith)
  note_verdict-old Drift.touched p q r a m = (a, m)
  note_verdict-old Drift.untouched p q r a m = (a, m)

  judge-found :
      (o : Option FileEntry) (content p : Bytes) (stat : Stat) (r : DriftReport)
      → contains (note_verdict c (judge c true o content stat) p r).added p ≡ false
      → contains (note_verdict c (judge c true o content stat) p r).modified p ≡ false
      → (fe : FileEntry) × (o ≡ some fe) × (c.blake3 content ≡ fe.content)
  unfolding judge
  judge-found none content p stat r a m = absurd (ground (arith, ==_refl p))
  judge-found (some fe) content p stat r a m = elim (list_eq.dec (c.blake3 content) fe.content) [
    | yes same ↦ (fe, refl, same)
    | no other ↦ absurd (ground (arith, ==_refl p))
  ]

  survey-some :
      (patterns : List Bytes) (expected : Dict Bytes FileEntry) (tree : Tree) (names : Names)
      (content : Bytes) (stat : Stat)
      → lookup names tree ≡ some (file content stat)
      → is_tracked patterns names (file content stat) ≡ true
      → contains (survey c true patterns expected tree).added (rel_str names) ≡ false
      → contains (survey c true patterns expected tree).modified (rel_str names) ≡ false
      → (fe : FileEntry) × (lookup (rel_str names) expected ≡ some fe)
        × (c.blake3 content ≡ fe.content)
  unfolding survey lookup
  survey-some patterns expected [] names content stat there tracked a m = absurd (cc)
  survey-some patterns expected ((n, node) ∷ tree) names content stat there tracked a m =
      elim (list_eq.dec names n) [
        | yes same ↦
            let found : node ≡ file content stat = ground arith in
            let seen : is_tracked patterns n node ≡ true = rw (found, ← same) tracked in
            judge-found (lookup (rel_str names) expected) content (rel_str names) stat
              (survey c true patterns expected tree) (rw (found, ← same, tracked) at a)
              (rw (found, ← same, tracked) at m)
        | no other ↦
            let later : lookup names tree ≡ some (file content stat) = ground arith in
            elim (Bool-cases (is_tracked patterns n node)) [
              | inr not_tracked ↦
                  survey-some patterns expected tree names content stat later tracked
                    (rw not_tracked at a) (rw not_tracked at m)
              | inl is_seen ↦
                  let (a', m') =
                    note_verdict-old _ _ (rel_str names) (survey c true patterns expected tree)
                      (rw is_seen at a) (rw is_seen at m) in
                  survey-some patterns expected tree names content stat later tracked a' m'
            ]
      ]

  -- Where a full survey lists nothing as added or modified, every tracked file of the worktree
  -- has content of the hash that the manifest names at its path, whatever its times and size say.
  pub detect_full :
      (is_utf8 : Bytes → Bool) (tree : Tree) (m : Manifest) (names : Names) (content : Bytes)
      (stat : Stat)
      → (detect c is_utf8 tree m true).added ≡ []
      → (detect c is_utf8 tree m true).modified ≡ []
      → lookup names tree ≡ some (file content stat)
      → is_tracked (ignore_patterns is_utf8 (ignore_file tree)) names (file content stat) ≡ true
      → (fe : FileEntry) × (lookup (rel_str names) (by_path m.files) ≡ some fe)
        × (c.blake3 content ≡ fe.content)
  unfolding detect
  detect_full is_utf8 tree m names content stat added modified there tracked =
      let nothing : (xs : List Bytes) → sort xs ≡ [] → contains xs (rel_str names) ≡ false =
        λ xs e. sym (contains-sort xs (rel_str names)) ∙ ap (λ l. contains l (rel_str names)) e in
      survey-some (ignore_patterns is_utf8 (ignore_file tree)) (by_path m.files) tree names content
        stat there tracked (nothing _ added) (nothing _ modified)
