-- ===== src/Paths/Laws.antt =====
-- How `split`, `components` and `normalize` act on joined paths.
use respawn.Base.{
  ℕ, Bytes, ◌≡◌, refl, ◌∙◌, ◌≢◌, true, List, [], ◌∷◌, ◌++◌, arith, all, nat_eq, list_eq,
}
use mathlib.Core.List.{append-nil, append_assoc}
use respawn.Paths.{
  slash, split, body, components, is_absolute, is_normal, join, normalize, Component, root_dir,
  cur_dir, parent_dir, normal,
}

pub split-ne-nil : (c : ℕ) (p : Bytes) → split c p ≢ []
unfolding split
split-ne-nil c [] = ground arith
split-ne-nil c (x ∷ xs) = ground (arith, split-ne-nil c xs)

-- A separator cuts the pieces in two.
pub split-append : (c : ℕ) (p q : Bytes) → split c (p ++ c ∷ q) ≡ split c p ++ split c q
unfolding split
split-append c [] q = ground arith
split-append c (x ∷ p) q = ground (arith, split-append c p q, split-ne-nil c p)

pub body-append : (ps qs : List Bytes) → body (ps ++ qs) ≡ body ps ++ body qs
unfolding body
body-append [] qs = refl
body-append (p ∷ ps) qs = ground (arith, body-append ps qs)

pub components-join :
    (root p : Bytes)
    → is_absolute root ≡ true
    → components (join root p) ≡ components root ++ body (split slash p)
unfolding components join
components-join [] p h = cc
components-join (x ∷ root) p h =
    ground
      (arith, split-append slash (x ∷ root) p, body-append (split slash (x ∷ root)) (split slash p))

pub normalize-append :
    (out cs ds : List Component) → normalize out (cs ++ ds) ≡ normalize (normalize out cs) ds
unfolding normalize
normalize-append out [] ds = refl
normalize-append out (cur_dir ∷ cs) ds = normalize-append out cs ds
normalize-append out (parent_dir ∷ cs) ds = normalize-append _ cs ds
normalize-append out (root_dir ∷ cs) ds = normalize-append _ cs ds
normalize-append out (normal name ∷ cs) ds = normalize-append _ cs ds

-- Names alone are appended as they stand.
pub normalize_names :
    (out cs : List Component) → all is_normal cs ≡ true → normalize out cs ≡ out ++ cs
unfolding normalize
normalize_names out [] h = rw append-nil
normalize_names out (normal name ∷ cs) h =
    normalize_names (out ++ normal name ∷ []) cs h ∙ append_assoc out (normal name ∷ []) cs
normalize_names out (cur_dir ∷ cs) h = cc
normalize_names out (root_dir ∷ cs) h = cc
normalize_names out (parent_dir ∷ cs) h = cc
