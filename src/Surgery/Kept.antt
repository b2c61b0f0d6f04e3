-- ===== src/Surgery/Kept.antt =====
-- What the manifest of a surgical undo is made of.
use mathlib.Core.Path.{subst₂}
use mathlib.Core.List.{Memᴰ}
use mathlib.Core.List.Memᴰ.{head, tail}
use respawn.Base.Sorted.{All-sort_with, All-append, mem-sort_with}
use respawn.Base.{
  Bytes, text, true, false, none, some, List, [], ◌∷◌, ◌++◌, contains, All, ◌==◌, list_eq, nat_eq,
  option_eq, ◌≡◌, ◌⊎◌, refl, sym, ap, ◌∙◌, inl, inr, arith, Bool-cases, Option-cases,
}
use respawn.Base.Sort.{sort}
use respawn.Errors.{Result, ok, err}
use respawn.Drift.Diffs.{contains-sort}
use respawn.Manifest.{FileEntry, Manifest}
use respawn.Surgery.{
  Traced, nothing_traced, trace, resolve_path, keep_head, path_at_most, undone_files, last,
  undo_actor,
}
use respawn.Surgery.Undone.{is_some, first_touch, undone}
use respawn.Surgery.Trace.{contains-trace, resolve_path-trace}
use respawn.Surgery.Files.{
  mem-append, paths, keep_head-mem, keep_head-resolved, bring_back-resolved, keep_head-All,
  bring_back-All,
}

-- An entry that may stand in the result: a file of HEAD with a path that is not touched, or what
-- an undo puts at one of the touched paths.
abbrev pub IsRightful : Bytes → List Manifest → List FileEntry → List Bytes → FileEntry → Type 0
IsRightful actor chain fes touched fe =
    (Memᴰ fe fes × (contains touched fe.path ≡ false))
    ⊎ ((p : Bytes) × (contains touched p ≡ true) × (undone actor chain p ≡ some fe))

-- The touched paths are those that the actor changed; the manifest is HEAD with other files; these
-- are the files of HEAD with other paths, what an undo puts at the touched paths, and no others.
pub record IsUndone (actor : Bytes) (chain : List Manifest) (head_m vm : Manifest)
    (touched : List Bytes) : Type 0 where
  pub changed : (p : Bytes) → contains touched p ≡ is_some (first_touch actor p none chain)
  pub rest : vm ≡ record head_m {
    files = vm.files;
    message = text "surgical undo of actor '" ++ actor ++ text "'";
  }
  pub kept :
      (fe : FileEntry) → Memᴰ fe head_m.files → contains touched fe.path ≡ false → Memᴰ fe vm.files
  pub put_back :
      (p : Bytes) (fe : FileEntry)
      → contains touched p ≡ true
      → undone actor chain p ≡ some fe
      → Memᴰ fe vm.files
  pub nothing_else : All (IsRightful actor chain head_m.files touched) vm.files

-- What each member has, all have.
All-mem : {A : Type 0} (P : A → Type 0) (xs : List A) → ((a : A) → Memᴰ a xs → P a) → All P xs
All-mem P [] h = tt
All-mem P (x ∷ xs) h = (h x (head refl), All-mem P xs (λ a m. h a (tail m)))

All-contains :
    (P : Bytes → Type 0) (ps : List Bytes) → ((p : Bytes) → contains ps p ≡ true → P p) → All P ps
All-contains P [] h = tt
All-contains P (q ∷ ps) h = (h q (ground arith), All-contains P ps (λ p there. h p (ground arith)))

abbrev manifest_of : Manifest → Result (Manifest × List Bytes) → Manifest
manifest_of m (err e) = m
manifest_of m (ok (n, ps)) = n

abbrev touched_of : Result (Manifest × List Bytes) → List Bytes
touched_of (err e) = []
touched_of (ok (n, ps)) = ps

-- Of a manifest `m` and a chain.
module _ (actor : Bytes) (chain : List Manifest) (m : Manifest) where
  abbrev traced : Traced
  traced = trace actor chain nothing_traced

  -- The same path in the touched ones, and what it resolves to.
  touched-sort : (p : Bytes) → contains (sort traced.touched) p ≡ contains traced.touched p
  touched-sort p = contains-sort traced.touched p

  undone_files_put_back :
      (p : Bytes) (fe : FileEntry)
      → contains (sort traced.touched) p ≡ true
      → undone actor chain p ≡ some fe
      → Memᴰ fe (undone_files traced m)
  unfolding undone_files
  undone_files_put_back p fe touched e =
      let resolved = resolve_path-trace actor p chain ∙ e in
      mem-sort_with path_at_most _ (
        mem-append (keep_head traced m.files) _ (elim (Bool-cases (contains (paths m.files) p)) [
          | inl there ↦ inl (
              keep_head-resolved traced p fe resolved m.files (sym (touched-sort p) ∙ touched)
                there)
          | inr gone ↦ inr (
              bring_back-resolved traced p fe resolved (paths m.files) (sort traced.touched) touched
                gone)
        ]))

  undone_files-IsRightful :
      All (IsRightful actor chain m.files (sort traced.touched)) (undone_files traced m)
  unfolding undone_files
  undone_files-IsRightful =
      let P = IsRightful actor chain m.files (sort traced.touched) in
      let back : (p : Bytes) (fe : FileEntry)
          → contains traced.touched p ≡ true
          → resolve_path traced p ≡ some fe
          → P fe =
        λ p fe touched e.
          inr (p, touched-sort p ∙ touched, sym (resolve_path-trace actor p chain) ∙ e) in
      All-sort_with path_at_most P _ (
        All-append P (keep_head traced m.files) _
          (keep_head-All traced P back m.files (
            All-mem _ m.files
              (λ fe there untouched. inl (there, touched-sort fe.path ∙ untouched))))
          (bring_back-All traced P back (paths m.files) (sort traced.touched)
            (All-contains _ _ (λ p there. sym (touched-sort p) ∙ there))))

-- Where a surgical undo finds changes of the actor in a chain of manifests, it returns HEAD with
-- its own message and with other files. The touched paths that it reports are those at which a
-- snapshot of the actor has another content than the snapshot before it. The files are those of
-- HEAD with other paths, and at each touched path the newest entry of another with a content that
-- no snapshot of the actor before it has there, or else the entry before the first change of the
-- actor, if there was one; and no others.
pub undo_actor-IsUndone :
    (actor : Bytes) (chain : List Manifest) (vm : Manifest) (touched : List Bytes)
    → undo_actor actor chain ≡ ok (vm, touched)
    → (head_m : Manifest) × (last chain ≡ some head_m) × IsUndone actor chain head_m vm touched
unfolding undo_actor undone_files
undo_actor-IsUndone actor chain vm touched e =
    let t = trace actor chain nothing_traced in
    elim (Option-cases (last chain)) [
      | inl empty ↦ absurd (cc (rw (undo_actor, empty) at e))
      | inr (m, newest) ↦ elim (Bool-cases (t.touched == [])) [
        | inl nothing ↦ absurd (cc (rw (undo_actor, newest, nothing) at e))
        | inr something ↦
            let made = (rw (undo_actor, newest, something) at e) in
            (
              m,
              newest,
              subst₂ (IsUndone actor chain m) (ap (manifest_of m) made) (ap touched_of made)
                  (record {
                    changed = λ p. contains-sort t.touched p ∙ contains-trace actor p chain;
                    rest = refl;
                    kept = λ fe there untouched. mem-sort_with path_at_most _ (
                        mem-append (keep_head t m.files) _ (
                          inl (
                            keep_head-mem t m.files fe there
                              (sym (contains-sort t.touched fe.path) ∙ untouched))));
                    put_back = undone_files_put_back actor chain m;
                    nothing_else = undone_files-IsRightful actor chain m;
                  }),
            )
      ]
    ]
