-- ===== src/Paths/Contained.antt =====
-- A path that `sanitize_rel` accepts stays below the root that it is joined to, and every path
-- of plain names is accepted.
use respawn.Base.{
  ℕ, ◌≤◌, Bytes, ◌≡◌, refl, ◌∙◌, ap, ◌≢◌, true, false, ◌||◌, List, [], ◌∷◌, ◌++◌, map, arith, all,
  All, length, contains, nat_eq, list_eq, sym,
}
use respawn.Errors.{ok}
use respawn.Paths.{
  slash, dot, dot_dot, split, body, front, components, is_absolute, is_normal, join, normalize,
  sanitize_rel, path_of, normal,
}
use respawn.Paths.Laws.{
  split-ne-nil, split-append, components-join, normalize-append, normalize_names,
}

-- What acceptance gives: the same text, and names only.
pub sanitize_rel-eq_ok :
    (p q : Bytes)
    → sanitize_rel p ≡ ok q
    → (p ≡ q) × (all is_normal (components p) ≡ true) × (is_absolute p ≡ false) × (p ≢ [])
unfolding sanitize_rel
sanitize_rel-eq_ok p q h = ground arith

body-front : (ps : List Bytes) → all is_normal (front ps) ≡ true → front ps ≡ body ps
unfolding body
body-front [] h = refl
body-front (p ∷ ps) h = ground arith

components-relative : (p : Bytes) → is_absolute p ≡ false → components p ≡ front (split slash p)
unfolding components
components-relative p h = rw h

-- The components of an accepted path are those of its pieces.
pub components-body : (p q : Bytes) → sanitize_rel p ≡ ok q → components q ≡ body (split slash q)
unfolding components
components-body p q h =
    ground (arith, sanitize_rel-eq_ok p q h, body-front (split slash q), components-relative q)

-- A relative path has a first piece that is not empty.
front-split-ne-nil : (p : Bytes) → p ≢ [] → is_absolute p ≡ false → front (split slash p) ≢ []
unfolding split body
front-split-ne-nil [] h r = absurd (h refl)
front-split-ne-nil (x ∷ xs) h r = ground (arith, split-ne-nil slash xs)

-- Resolved lexically, the place that an accepted path names below an absolute root is the root
-- followed by the path's own names, each a plain name, and at least one.
pub sanitize_rel-IsContained :
    (root p q : Bytes)
    → is_absolute root ≡ true
    → sanitize_rel p ≡ ok q
    → (normalize [] (components (join root q)) ≡ normalize [] (components root) ++ components q)
      × (all is_normal (components q) ≡ true)
      × (components q ≢ [])
sanitize_rel-IsContained root p q r h =
    let (same, plain, relative, ne) = sanitize_rel-eq_ok p q h in
    let plain' : all is_normal (components q) ≡ true = rw (← same) plain in
    (
      rw (components-join root q r, ← components-body p q h, normalize-append)
          (normalize_names _ (components q) plain'),
      plain',
      λ e.
          front-split-ne-nil p ne relative
            (sym (components-relative p relative) ∙ ap components same ∙ e),
    )

-- What a name must be like.
pub record IsName (n : Bytes) : Type 0 where
  pub ne_nil : n ≢ []
  pub ne_dot : n ≢ dot
  pub ne_dot_dot : n ≢ dot_dot
  pub no_slash : contains n slash ≡ false
  pub no_nul : contains n 0 ≡ false
  pub no_backslash : contains n b'\\' ≡ false

split_name : (n : Bytes) → contains n slash ≡ false → split slash n ≡ n ∷ []
unfolding split
split_name [] h = refl
split_name (x ∷ n) h = ground (arith, split_name n)

split-path_of : (ns : List Bytes) → ns ≢ [] → All IsName ns → split slash (path_of ns) ≡ ns
split-path_of [] ne h = absurd (ne refl)
split-path_of (n ∷ []) ne h = split_name n h.0.no_slash
split-path_of (n ∷ m ∷ ns) ne h =
    split-append slash n (path_of (m ∷ ns))
    ∙ rw (split_name n h.0.no_slash, split-path_of (m ∷ ns) (λ e. cc) h.1)

body_names : (ns : List Bytes) → All IsName ns → body ns ≡ map normal ns
unfolding body
body_names [] h = refl
body_names (n ∷ ns) h = ground (arith, body_names ns h.1, h.0.ne_nil, h.0.ne_dot, h.0.ne_dot_dot)

contains-append : (xs ys : Bytes) (a : ℕ) → contains (xs ++ ys) a ≡ (contains xs a || contains ys a)
contains-append [] ys a = refl
contains-append (x ∷ xs) ys a = ground (arith, contains-append xs ys a)

contains-path_of :
    (ns : List Bytes) (a : ℕ)
    → All (λ n. contains n a ≡ false) ns
    → a ≢ slash
    → contains (path_of ns) a ≡ false
contains-path_of [] a h ne = refl
contains-path_of (n ∷ []) a h ne = h.0
contains-path_of (n ∷ m ∷ ns) a h ne =
    rw contains-append (ground (arith, contains-path_of (m ∷ ns) a h.1 ne))

relative_path_of : (ns : List Bytes) → ns ≢ [] → All IsName ns → is_absolute (path_of ns) ≡ false
relative_path_of [] ne h = absurd (ne refl)
relative_path_of ((x ∷ n) ∷ []) ne h = ground (arith, h.0.no_slash)
relative_path_of ((x ∷ n) ∷ m ∷ ns) ne h = ground (arith, h.0.no_slash)
relative_path_of ([] ∷ ns) ne h = absurd (h.0.ne_nil refl)

path_of-ne-nil : (ns : List Bytes) → ns ≢ [] → All IsName ns → path_of ns ≢ []
path_of-ne-nil [] ne h = absurd (ne refl)
path_of-ne-nil (n ∷ []) ne h = h.0.ne_nil
path_of-ne-nil ((x ∷ n) ∷ m ∷ ns) ne h = λ e. cc
path_of-ne-nil ([] ∷ m ∷ ns) ne h = λ e. cc

All-map {ℓ} :
    {A : Type ℓ} {P Q : A → Type 0} (f : (a : A) → P a → Q a) (xs : List A) → All P xs → All Q xs
All-map f [] h = tt
All-map f (x ∷ xs) h = (f x h.0, All-map f xs h.1)

all_normal_names : (ns : List Bytes) → all is_normal (map normal ns) ≡ true
all_normal_names [] = refl
all_normal_names (n ∷ ns) = all_normal_names ns

pub components-path_of :
    (ns : List Bytes) → ns ≢ [] → All IsName ns → components (path_of ns) ≡ map normal ns
components-path_of [] ne h = absurd (ne refl)
components-path_of (n ∷ ns) ne h =
    components-relative _ (relative_path_of (n ∷ ns) ne h)
    ∙ rw (split-path_of (n ∷ ns) ne h) (ground (arith, h.0.ne_dot, body_names (n ∷ ns) h))

-- Every path of plain names of at most 1024 bytes in all is accepted as it stands, and read back
-- as these names.
pub sanitize_rel-path_of :
    (ns : List Bytes)
    → ns ≢ []
    → All IsName ns
    → length (path_of ns) ≤ 1024
    → (sanitize_rel (path_of ns) ≡ ok (path_of ns)) × (components (path_of ns) ≡ map normal ns)
unfolding sanitize_rel
sanitize_rel-path_of ns ne h fits = (
  ground (
    arith,
    path_of-ne-nil ns ne h,
    contains-path_of ns 0 (All-map (λ n i. i.no_nul) ns h) (omega arith),
    contains-path_of ns b'\\' (All-map (λ n i. i.no_backslash) ns h) (omega arith),
    relative_path_of ns ne h,
    components-path_of ns ne h,
    all_normal_names ns,
  ),
  components-path_of ns ne h,
)
