-- ===== src/Surgery/Files.antt =====
-- Which entries of HEAD and of the touched paths `surgical_manifest` (src/revert.rs) keeps.
use mathlib.Core.List.{Memᴰ}
use mathlib.Core.List.Memᴰ.{head, tail}
use mathlib.Core.Option.{some-injective}
use respawn.Base.{
  Bytes, true, false, Option, none, some, List, [], ◌∷◌, ◌++◌, map, contains, All, ◌==◌, ==_iff,
  list_eq, nat_eq, option_eq, ◌≡◌, ◌⊎◌, refl, sym, ap, ◌∙◌, inl, inr, arith, Bool-cases,
}
use respawn.Manifest.{FileEntry}
use respawn.Surgery.{Traced, resolve_path, push_some, keep_head, bring_back}

pub mem-append :
    {fe : FileEntry} (xs ys : List FileEntry) → Memᴰ fe xs ⊎ Memᴰ fe ys → Memᴰ fe (xs ++ ys)
mem-append [] ys (inl h) = elim h [ ]
mem-append [] ys (inr h) = h
mem-append (x ∷ xs) ys (inl (head e)) = head e
mem-append (x ∷ xs) ys (inl (tail h)) = tail (mem-append xs ys (inl h))
mem-append (x ∷ xs) ys (inr h) = tail (mem-append xs ys (inr h))

mem-push_some :
    {fe : FileEntry} (o : Option FileEntry) (fes : List FileEntry)
    → Memᴰ fe fes
    → Memᴰ fe (push_some o fes)
mem-push_some none fes h = h
mem-push_some (some g) fes h = tail h

mem-push_some_first :
    {fe : FileEntry} (o : Option FileEntry) (fes : List FileEntry)
    → o ≡ some fe
    → Memᴰ fe (push_some o fes)
mem-push_some_first none fes e = absurd (cc e)
mem-push_some_first (some g) fes e = head (some-injective _ _ (sym e))

abbrev pub paths : List FileEntry → List Bytes
paths fes = map (λ f. f.path) fes

module _ (t : Traced) where
  -- A file of HEAD that was not touched stays.
  pub keep_head-mem :
      (fes : List FileEntry) (fe : FileEntry)
      → Memᴰ fe fes
      → contains t.touched fe.path ≡ false
      → Memᴰ fe (keep_head t fes)
  unfolding keep_head
  keep_head-mem [] fe h untouched = elim h [ ]
  keep_head-mem (f ∷ fes) fe (head e) untouched =
      let same : contains t.touched f.path ≡ false =
        ap (λ g. contains t.touched g.path) (sym e) ∙ untouched in
      rw (keep_head, same) (head e)
  keep_head-mem (f ∷ fes) fe (tail h) untouched =
      let rest = keep_head-mem fes fe h untouched in
      elim (Bool-cases (contains t.touched f.path)) [
        | inl touched ↦ rw (keep_head, touched) (mem-push_some (resolve_path t f.path) _ rest)
        | inr other ↦ rw (keep_head, other) (tail rest)
      ]

  module _ (p : Bytes) (fe : FileEntry) (e : resolve_path t p ≡ some fe) where
    -- What a touched path of HEAD resolves to stands in its place.
    pub keep_head-resolved :
        (fes : List FileEntry)
        → contains t.touched p ≡ true
        → contains (paths fes) p ≡ true
        → Memᴰ fe (keep_head t fes)
    unfolding keep_head
    keep_head-resolved [] touched there = absurd (cc there)
    keep_head-resolved (f ∷ fes) touched there = elim (Bool-cases (p == f.path)) [
      | inl same ↦
          let one = (==_iff p f.path).0 same in
          rw (keep_head, ap (contains t.touched) (sym one) ∙ touched)
            (mem-push_some_first (resolve_path t f.path) _ (ap (resolve_path t) (sym one) ∙ e))
      | inr other ↦
          let rest = keep_head-resolved fes touched (ground arith) in
          elim (Bool-cases (contains t.touched f.path)) [
            | inl changed ↦ rw (keep_head, changed) (mem-push_some (resolve_path t f.path) _ rest)
            | inr not_changed ↦ rw (keep_head, not_changed) (tail rest)
          ]
    ]

    pub bring_back-resolved :
        (hs ps : List Bytes)
        → contains ps p ≡ true
        → contains hs p ≡ false
        → Memᴰ fe (bring_back t hs ps)
    unfolding bring_back
    bring_back-resolved hs [] there gone = absurd (cc there)
    bring_back-resolved hs (q ∷ ps) there gone = elim (Bool-cases (p == q)) [
      | inl same ↦
          let one = (==_iff p q).0 same in
          rw (bring_back, ap (contains hs) (sym one) ∙ gone)
            (mem-push_some_first (resolve_path t q) _ (ap (resolve_path t) (sym one) ∙ e))
      | inr other ↦
          let rest = bring_back-resolved hs ps (ground arith) gone in
          elim (Bool-cases (contains hs q)) [
            | inl in_head ↦ rw (bring_back, in_head) rest
            | inr not_there ↦ rw (bring_back, not_there) (mem-push_some (resolve_path t q) _ rest)
          ]
    ]

  module _ (P : FileEntry → Type 0) where
    All-push_some :
        (o : Option FileEntry) (fes : List FileEntry)
        → ((fe : FileEntry) → o ≡ some fe → P fe)
        → All P fes
        → All P (push_some o fes)
    All-push_some none fes p h = h
    All-push_some (some fe) fes p h = (p fe refl, h)

    module _
        (back : (p : Bytes) (fe : FileEntry)
          → contains t.touched p ≡ true
          → resolve_path t p ≡ some fe
          → P fe) where
      pub keep_head-All :
          (fes : List FileEntry)
          → All (λ fe. contains t.touched fe.path ≡ false → P fe) fes
          → All P (keep_head t fes)
      unfolding keep_head
      keep_head-All [] h = tt
      keep_head-All (fe ∷ fes) (p, h) = elim (Bool-cases (contains t.touched fe.path)) [
        | inl touched ↦
            rw (keep_head, touched)
              (All-push_some (resolve_path t fe.path) _ (λ g. back fe.path g touched)
                (keep_head-All fes h))
        | inr other ↦ rw (keep_head, other) (p other, keep_head-All fes h)
      ]

      pub bring_back-All :
          (hs ps : List Bytes)
          → All (λ p. contains t.touched p ≡ true) ps
          → All P (bring_back t hs ps)
      unfolding bring_back
      bring_back-All hs [] h = tt
      bring_back-All hs (p ∷ ps) (touched, h) = elim (Bool-cases (contains hs p)) [
        | inl there ↦ rw (bring_back, there) (bring_back-All hs ps h)
        | inr gone ↦
            rw (bring_back, gone)
              (All-push_some (resolve_path t p) _ (λ g. back p g touched) (bring_back-All hs ps h))
      ]
