-- ===== src/Drift/Diffs.antt =====
-- What the lists of a difference hold.
use respawn.Base.{
  Bytes, Bool, false, not, ◌||◌, ◌&&◌, Option, none, some, List, [], ◌∷◌, contains, ◌==◌, list_eq,
  nat_eq, ◌≡◌, refl, sym, ap, ◌∙◌, arith, Bool-cases, inl, inr,
}
use respawn.Base.Dict.{Dict, lookup, has, has-eq_false}
use respawn.Base.Sort.{sort, sort_with, insert_before, at_most}
use respawn.Manifest.{FileEntry, Manifest}
use respawn.Drift.{by_path, differs, new_paths, changed_paths, diff_manifests}

contains-insert_before :
    (x : Bytes) (ys : List Bytes) (p : Bytes)
    → contains (insert_before at_most x ys) p ≡ contains (x ∷ ys) p
contains-insert_before x [] p = refl
contains-insert_before x (y ∷ ys) p = elim (Bool-cases (at_most x y)) [
  | inl b ↦ rw b refl
  | inr b ↦ rw b (ground (arith, contains-insert_before x ys p))
]

pub contains-sort : (xs : List Bytes) (p : Bytes) → contains (sort xs) p ≡ contains xs p
unfolding sort sort_with
contains-sort [] p = refl
contains-sort (x ∷ xs) p =
    contains-insert_before x (sort xs) p ∙ ap (λ b. p == x || b) (contains-sort xs p)

-- No path stands twice.
abbrev pub AreKeysDistinct : Dict Bytes FileEntry → Type 0
AreKeysDistinct [] = Unit
AreKeysDistinct ((p, fe) ∷ d) = (has p d ≡ false) × AreKeysDistinct d

pub by_path-AreKeysDistinct : (fes : List FileEntry) → AreKeysDistinct (by_path fes)
unfolding by_path
by_path-AreKeysDistinct [] = tt
by_path-AreKeysDistinct (fe ∷ fes) = elim (Bool-cases (has fe.path (by_path fes))) [
  | inl old ↦ rw old (by_path-AreKeysDistinct fes)
  | inr new ↦ rw new (new, by_path-AreKeysDistinct fes)
]

contains-new_paths :
    (d other : Dict Bytes FileEntry) (p : Bytes)
    → contains (new_paths d other) p ≡ (has p d && not (has p other))
unfolding new_paths has lookup
contains-new_paths [] other p = refl
contains-new_paths ((q, fe) ∷ d) other p = ground (arith, contains-new_paths d other p)

-- Both have the path, with contents of different hashes.
abbrev pub is_changed : Option FileEntry → Option FileEntry → Bool
is_changed (some fe) (some other) = not (fe.content == other.content)
is_changed _ _ = false

differs-is_changed :
    (fe : FileEntry) (other : Option FileEntry) → differs fe other ≡ is_changed (some fe) other
differs-is_changed fe none = refl
differs-is_changed fe (some other) = elim (list_eq.dec fe.content other.content) [
  | yes same ↦ rw (sym same, same) refl
  | no different ↦ ground arith
]

contains-changed_paths :
    (d other : Dict Bytes FileEntry) (p : Bytes)
    → AreKeysDistinct d
    → contains (changed_paths d other) p ≡ is_changed (lookup p d) (lookup p other)
unfolding changed_paths lookup has
contains-changed_paths [] other p h = refl
contains-changed_paths ((q, fe) ∷ d) other p h = ground (
  arith,
  contains-changed_paths d other p h.1,
  has-eq_false q d h.0,
  differs-is_changed fe (lookup q other),
)

-- Of two manifests, a path is listed as added when only the newer has it, as deleted when only
-- the older has it, and as modified when both have it with contents of different hashes.
pub diff_manifests_complete :
    (a b : Manifest) (p : Bytes)
    → let d = diff_manifests a b in
      let there = by_path a.files in
      let before = by_path b.files in
      (contains d.added p ≡ (has p there && not (has p before)))
      × (contains d.deleted p ≡ (has p before && not (has p there)))
      × (contains d.modified p ≡ is_changed (lookup p there) (lookup p before))
unfolding diff_manifests
diff_manifests_complete a b p = (
  contains-sort _ p ∙ contains-new_paths (by_path a.files) (by_path b.files) p,
  contains-sort _ p ∙ contains-new_paths (by_path b.files) (by_path a.files) p,
  contains-sort _ p
      ∙ contains-changed_paths (by_path a.files) (by_path b.files) p
          (by_path-AreKeysDistinct a.files),
)
