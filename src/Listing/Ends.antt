-- ===== src/Listing/Ends.antt =====
-- The walk along the chain of HEAD ends, in no more rounds than there are manifests and one.
use respawn.Base.{
  ℕ, zero, suc, ◌+◌, ◌≤◌, ◌<◌, Bytes, true, false, Option, none, some, List, [], ◌∷◌, contains,
  length, ◌==◌, list_eq, nat_eq, ◌≡◌, ◌≢◌, refl, sym, ap, ◌∙◌, ◌⊎◌, inl, inr, arith, Bool-cases,
  Option-cases,
}
use respawn.Base.Dict.{Dict, has, has-eq_false, erase, lookup, lookup-erase}
use respawn.Errors.{Result, ok, err, missing_object, Result-cases, ◌>>=◌, ◌>>◌}
use respawn.Crates.{Crates, hash_hex}
use respawn.Store.{Fabric, get_manifest_bytes}
use mathlib.Core.Path.{subst}
use respawn.Manifest.{Manifest, ManifestJson, load, deserialize, validate}
use respawn.Listing.{walk_parents}

length-erase_le : {V : Type 0} (k : Bytes) (d : Dict Bytes V) → length (erase k d) ≤ length d
unfolding erase
length-erase_le k [] = omega arith
length-erase_le k ((i, v) ∷ d) = ground (arith, length-erase_le k d)

length-erase :
    {V : Type 0} (k : Bytes) (d : Dict Bytes V) → has k d ≡ true → length (erase k d) < length d
unfolding erase has lookup
length-erase k [] h = absurd (cc)
length-erase k ((i, v) ∷ d) h = elim (Bool-cases (k == i)) [
  | inl same ↦ rw same (omega (arith, length-erase_le k d))
  | inr other ↦ rw other (omega (arith, length-erase k d (ground arith)))
]

has-erase_ne :
    {V : Type 0} (k i : Bytes) (d : Dict Bytes V)
    → has k (erase i d) ≡ false
    → (k ≡ i) ⊎ (has k d ≡ false)
unfolding has
has-erase_ne k i d h = elim (list_eq.dec k i) [
  | yes same ↦ inl same
  | no other ↦ inr (ground (arith, lookup-erase k i d))
]

module _ (c : Crates) (j : ManifestJson) (s : Fabric) where
  abbrev read_as : Bytes → Result Manifest
  read_as b = do m ← deserialize j b; validate m; ok m

  load-some : (k b : Bytes) → lookup (hash_hex c k) s.manifests ≡ some b → load c j k s ≡ read_as b
  unfolding load get_manifest_bytes
  load-some k b e = rw (get_manifest_bytes, e) refl

  load-none :
      (k : Bytes) → lookup (hash_hex c k) s.manifests ≡ none → load c j k s ≡ err (missing_object k)
  unfolding load get_manifest_bytes
  load-none k e = rw (get_manifest_bytes, e) refl

  -- Ids of one name have one manifest.
  load_same :
      (k i : Bytes) (m n : Manifest)
      → hash_hex c k ≡ hash_hex c i
      → load c j k s ≡ ok m
      → load c j i s ≡ ok n
      → m ≡ n
  load_same k i m n e p q = elim (Option-cases (lookup (hash_hex c i) s.manifests)) [
    | inl missing ↦ absurd (cc (load-none i missing))
    | inr (b, found) ↦
        cc (load-some k b (ap (λ h. lookup h s.manifests) e ∙ found), load-some i b found)
  ]

  load_missing :
      (k : Bytes) (m : Manifest) → has (hash_hex c k) s.manifests ≡ false → load c j k s ≢ ok m
  load_missing k m h p = absurd (cc (load-none k (has-eq_false _ _ h)))

  pub load-has :
      (k : Bytes) (m : Manifest) → load c j k s ≡ ok m → has (hash_hex c k) s.manifests ≡ true
  load-has k m p = elim (Bool-cases (has (hash_hex c k) s.manifests)) [
    | inl there ↦ there
    | inr missing ↦ absurd (load_missing k m missing p)
  ]

  -- The walk has nowhere new to go from a manifest with this parent.
  IsBack : List Bytes → Option Bytes → Option Bytes → Type 0
  IsBack seen cur parent =
      (parent ≡ none)
      ⊎ ((q : Bytes) × (parent ≡ some q) × ((contains seen q ≡ true) ⊎ (cur ≡ some q)))

  -- From the manifests that are not in `d` the walk went on already.
  Covers : List Bytes → Option Bytes → Dict Bytes Bytes → Type 0
  Covers seen cur d =
      (k : Bytes) (m : Manifest)
      → has (hash_hex c k) d ≡ false
      → load c j k s ≡ ok m
      → IsBack seen cur m.parent

  walk_parents_end :
      (fuel : ℕ) (id : Bytes) (parent : Option Bytes) (seen : List Bytes)
      → IsBack seen (some id) parent
      → walk_parents c j s fuel parent (id ∷ seen) ≡ ok []
  unfolding walk_parents IsBack
  walk_parents_end zero id parent seen back = refl
  walk_parents_end (suc fuel) id parent seen back = elim back [
    | inl last ↦ rw last refl
    | inr (q, p, seen_before) ↦
        let old : contains (id ∷ seen) q ≡ true = elim seen_before [
          | inl before ↦ ground arith
          | inr same ↦ ground arith
        ] in
        rw p (ground (arith, old))
  ]

  Covers-erase :
      (seen : List Bytes) (id : Bytes) (d : Dict Bytes Bytes) (m : Manifest)
      → load c j id s ≡ ok m
      → Covers seen (some id) d
      → Covers (id ∷ seen) m.parent (erase (hash_hex c id) d)
  unfolding Covers IsBack
  Covers-erase seen id d m loaded covers k n gone there =
      elim (has-erase_ne (hash_hex c k) (hash_hex c id) d gone) [
        | inl same ↦
            let one : n ≡ m = load_same k id n m same there loaded in
            subst (λ v. IsBack (id ∷ seen) m.parent v.parent) (sym one) (onwards m.parent)
        | inr before ↦ elim (covers k n before there) [
          | inl last ↦ inl last
          | inr (q, p, seen_before) ↦
              inr
                (q, p, inl (elim seen_before [ inl old ↦ ground arith | inr same ↦ ground arith ]))
        ]
      ]
    where
      onwards : (o : Option Bytes) → IsBack (id ∷ seen) o o
      onwards none = inl refl
      onwards (some q) = inr (q, refl, inr refl)

  walk_parents_steady :
      (fuel more : ℕ) (cur : Option Bytes) (seen : List Bytes) (d : Dict Bytes Bytes)
      → length d < fuel
      → length d < more
      → Covers seen cur d
      → walk_parents c j s more cur seen ≡ walk_parents c j s fuel cur seen
  unfolding walk_parents Covers
  walk_parents_steady zero more cur seen d enough most covers = absurd (omega arith)
  walk_parents_steady (suc fuel) zero cur seen d enough most covers = absurd (omega arith)
  walk_parents_steady (suc fuel) (suc more) none seen d enough most covers = refl
  walk_parents_steady (suc fuel) (suc more) (some id) seen d enough most covers =
      elim (Bool-cases (contains seen id)) [
        | inl old ↦ rw (walk_parents, old) refl
        | inr new ↦ elim (Result-cases (load c j id s)) [
          | inr (e, p) ↦ rw (walk_parents, new, p) refl
          | inl (m, p) ↦ elim (Bool-cases (has (hash_hex c id) d)) [
            | inl first ↦
                rw (walk_parents, new, p)
                  (ap (λ r. r >>= λ rest. ok ((id, m) ∷ rest))
                    (walk_parents_steady fuel more m.parent (id ∷ seen) (erase (hash_hex c id) d)
                      (omega (arith, length-erase (hash_hex c id) d first))
                      (omega (arith, length-erase (hash_hex c id) d first))
                      (Covers-erase seen id d m p covers)))
            | inr gone ↦
                let back = covers id m gone p in
                rw
                  (
                    walk_parents,
                    new,
                    p,
                    walk_parents_end fuel id m.parent seen back,
                    walk_parents_end more id m.parent seen back,
                  )
                  refl
          ]
        ]
      ]

  -- Whatever the manifests say of their parents, a chain with a cycle included, the walk of list
  -- comes to its end within the rounds that list gives it: more rounds change nothing.
  pub walk_parents-terminates :
      (more : ℕ) (cur : Option Bytes)
      → walk_parents c j s (suc (length s.manifests) + more) cur []
        ≡ walk_parents c j s (suc (length s.manifests)) cur []
  unfolding Covers
  walk_parents-terminates more cur =
      walk_parents_steady _ _ cur [] s.manifests (omega arith) (omega arith)
        (λ k m gone there. absurd (load_missing k m gone there))
