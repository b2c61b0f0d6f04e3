-- ===== src/Listing/Complete.antt =====
-- What list returns.
use respawn.Base.{
  ℕ, zero, suc, Bytes, Bool, true, false, ◌||◌, Option, none, some, List, [], ◌∷◌, ◌++◌, contains,
  length, All, ◌==◌, ==_iff, list_eq, nat_eq, ◌≡◌, refl, sym, ap, ◌∙◌, inl, inr, arith, Bool-cases,
}
use mathlib.Core.Path.{subst}
use respawn.Base.Dict.{Dict, keys, lookup, has}
use respawn.Base.Sort.{sort_with}
use respawn.Errors.{Result, ok, err, Result-cases}
use respawn.Crates
use respawn.Crates.{Crates, IsHash, hash_hex, parse_hash, is_hash_name}
use respawn.Crates.Laws.{parse_hash-hash_hex}
use respawn.Store.{Fabric, head}
use respawn.Manifest.{Manifest, ManifestJson, load}
use respawn.Listing.{Entry, ids, newest_first, walk_parents, keep_loaded, orphans, list}
use respawn.Listing.Ends.{load-has}
use respawn.Base.Sorted.{All-append, All-sort_with}
use respawn.Listing.Order.{IsNewestFirst, sort-IsNewestFirst, contains-sort, contains-append}

module _ (c : Crates) (j : ManifestJson) (s : Fabric) where
  IsLoaded : Entry → Type 0
  IsLoaded e = load c j e.0 s ≡ ok e.1

  -- What holds of a list that is returned.
  abbrev Returns : (List Entry → Type 0) → Result (List Entry) → Type 0
  Returns P (err e) = Unit
  Returns P (ok es) = P es

  walk_parents-IsLoaded :
      (fuel : ℕ) (cur : Option Bytes) (seen : List Bytes)
      → Returns (All IsLoaded) (walk_parents c j s fuel cur seen)
  unfolding walk_parents IsLoaded
  walk_parents-IsLoaded zero cur seen = tt
  walk_parents-IsLoaded (suc fuel) none seen = tt
  walk_parents-IsLoaded (suc fuel) (some id) seen = elim (Bool-cases (contains seen id)) [
    | inl old ↦ rw (walk_parents, old) tt
    | inr new ↦ elim (Result-cases (load c j id s)) [
      | inr (e, p) ↦ rw (walk_parents, new, p) tt
      | inl (m, p) ↦
          let later = walk_parents-IsLoaded fuel m.parent (id ∷ seen) in
          elim (Result-cases (walk_parents c j s fuel m.parent (id ∷ seen))) [
            | inr (e, q) ↦ rw (walk_parents, new, p, q) tt
            | inl (es, q) ↦ rw (walk_parents, new, p, q) (p, (rw q at later))
          ]
    ]
  ]

  keep_loaded-IsLoaded :
      (r : Result Manifest) (old : Bool) (id : Bytes) (es : List Entry)
      → load c j id s ≡ r
      → All IsLoaded es
      → All IsLoaded (keep_loaded c j s r old id es)
  unfolding IsLoaded
  keep_loaded-IsLoaded (err e) old id es p h = h
  keep_loaded-IsLoaded (ok m) true id es p h = h
  keep_loaded-IsLoaded (ok m) false id es p h = (p, h)

  orphans-IsLoaded : (names seen : List Bytes) → Returns (All IsLoaded) (orphans c j s names seen)
  unfolding orphans
  orphans-IsLoaded [] seen = tt
  orphans-IsLoaded (full ∷ names) seen = elim (Bool-cases (is_hash_name full)) [
    | inr other ↦ rw (orphans, other) (orphans-IsLoaded names seen)
    | inl name ↦ elim (Result-cases (parse_hash c full)) [
      | inr (e, p) ↦ rw (orphans, name, p) tt
      | inl (id, p) ↦
          let later = orphans-IsLoaded names (id ∷ seen) in
          elim (Result-cases (orphans c j s names (id ∷ seen))) [
            | inr (e, q) ↦ rw (orphans, name, p, q) tt
            | inl (es, q) ↦
                rw (orphans, name, p, q)
                  (keep_loaded-IsLoaded (load c j id s) (contains seen id) id es refl
                    (rw q at later))
          ]
    ]
  ]

  keep_loaded_complete :
      (r : Result Manifest) (old seen_before : Bool) (g id : Bytes) (es : List Entry)
      → ((id == g || seen_before) || contains (ids es) id) ≡ true
      → ((id == g) ≡ true → (old ≡ seen_before) × (m : Manifest) × (r ≡ ok m))
      → (seen_before || contains (ids (keep_loaded c j s r old g es)) id) ≡ true
  keep_loaded_complete (err e) old seen_before g id es h known = elim (Bool-cases (id == g)) [
    | inl same ↦ let (o, m, p) = known same in absurd (cc p)
    | inr other ↦ ground arith
  ]
  keep_loaded_complete (ok n) true seen_before g id es h known = elim (Bool-cases (id == g)) [
    | inl same ↦ let (o, m, p) = known same in ground arith
    | inr other ↦ ground arith
  ]
  keep_loaded_complete (ok n) false seen_before g id es h known = ground arith

  -- A manifest whose name is among the names is found, or was seen before.
  orphans_complete :
      (names seen : List Bytes) (id full : Bytes) (m : Manifest)
      → contains names full ≡ true
      → is_hash_name full ≡ true
      → parse_hash c full ≡ ok id
      → load c j id s ≡ ok m
      → Returns (λ es. (contains seen id || contains (ids es) id) ≡ true) (orphans c j s names seen)
  unfolding orphans
  orphans_complete [] seen id full m here name parsed loaded = absurd (cc)
  orphans_complete (f ∷ names) seen id full m here name parsed loaded =
      elim (Bool-cases (is_hash_name f)) [
        | inr other ↦
            rw (orphans, other)
              (orphans_complete names seen id full m (ground arith) name parsed loaded)
        | inl named ↦ elim (Result-cases (parse_hash c f)) [
          | inr (e, p) ↦ rw (orphans, named, p) tt
          | inl (g, p) ↦ elim (Result-cases (orphans c j s names (g ∷ seen))) [
            | inr (e, q) ↦ rw (orphans, named, p, q) tt
            | inl (es, q) ↦
                let found : (contains (g ∷ seen) id || contains (ids es) id) ≡ true =
                  elim (list_eq.dec full f) [
                    | yes same ↦ let one : id ≡ g = cc in ground arith
                    | no other ↦
                        let later =
                          orphans_complete names (g ∷ seen) id full m (ground arith) name parsed
                            loaded in
                        (rw q at later)
                  ] in
                rw (orphans, named, p, q)
                  (keep_loaded_complete (load c j g s) (contains seen g) (contains seen id) g id es
                    found
                    (λ same.
                      let one : id ≡ g = (==_iff _ _).0 same in
                      (ap (contains seen) (sym one), m, ap (λ k. load c j k s) (sym one) ∙ loaded)))
          ]
        ]
      ]

-- The entries hold what load reads under their ids, are sorted by time, and every manifest of the
-- store that load accepts is among them.
pub record IsListing (c : Crates) (j : ManifestJson) (s : Fabric) (es : List Entry) : Type 0 where
  pub loads : All (λ e. load c j e.0 s ≡ ok e.1) es
  pub newest : IsNewestFirst es
  pub complete :
      (id : Bytes) (m : Manifest) → IsHash id → load c j id s ≡ ok m → contains (ids es) id ≡ true

contains-keys :
    {V : Type 0} (k : Bytes) (d : Dict Bytes V) → has k d ≡ true → contains (keys d) k ≡ true
unfolding has lookup
contains-keys k [] h = absurd (cc)
contains-keys k ((i, v) ∷ d) h = ground (arith, contains-keys k d)

module _ (c : Crates) (L : Crates.IsLawful c) (j : ManifestJson) (s : Fabric) where
  -- What list returns, chain and orphans alike, loads as it is listed, is sorted with the newest
  -- first, and leaves out no snapshot of the store that load accepts. Assumed: the documented
  -- behaviour of the crates.
  pub list-IsListing : (es : List Entry) → list c j s ≡ ok es → IsListing c j s es
  unfolding list IsLoaded
  list-IsListing es e = elim (Result-cases (head c s)) [
    | inr (bad, p) ↦ absurd (cc (rw (list, p) at e))
    | inl (cur, p) ↦ elim (Result-cases (walk_parents c j s (suc (length s.manifests)) cur [])) [
      | inr (bad, q) ↦ absurd (cc (rw (list, p, q) at e))
      | inl (chain, q) ↦ elim (Result-cases (orphans c j s (keys s.manifests) (ids chain))) [
        | inr (bad, r) ↦ absurd (cc (rw (list, p, q, r) at e))
        | inl (others, r) ↦
            let chain_loaded = walk_parents-IsLoaded c j s (suc (length s.manifests)) cur [] in
            let others_loaded = orphans-IsLoaded c j s (keys s.manifests) (ids chain) in
            let sorted : sort_with newest_first (chain ++ others) ≡ es =
              cc (rw (list, p, q, r) at e) in
            subst (IsListing c j s) sorted (record {
              loads =
                  All-sort_with newest_first _ _
                    (All-append _ chain others (rw q at chain_loaded) (rw r at others_loaded));
              newest = sort-IsNewestFirst (chain ++ others);
              complete = λ id m h loaded.
                  let (parsed, name) = parse_hash-hash_hex c L id h in
                  let here =
                    contains-keys (hash_hex c id) s.manifests (load-has c j s id m loaded) in
                  let found =
                    orphans_complete c j s (keys s.manifests) (ids chain) id (hash_hex c id) m here
                      name parsed loaded in
                  contains-sort (chain ++ others) id
                  ∙ contains-append chain others id
                  ∙ (rw r at found);
            })
      ]
    ]
  ]
