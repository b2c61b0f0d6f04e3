-- ===== src/Base/Sort.antt =====
-- `sort` of texts and of pairs by a key, as stable insertion sorts.
use respawn.Base.Tests.{if◌then◌else◌, ltb}
use respawn.Base.Equality.{Bytes, ◌==◌, nat_eq, list_eq}
use mathlib.Core.Bool.{Bool, true, false, ◌&&◌, ◌||◌}
use mathlib.Core.List.{List, [], ◌∷◌}

-- The order of texts, byte by byte.
abbrev pub at_most : Bytes → Bytes → Bool
at_most [] ys = true
at_most (x ∷ xs) [] = false
at_most (x ∷ xs) (y ∷ ys) = ltb x y || (x == y && at_most xs ys)

module _ {ℓ} {A : Type ℓ} (before : A → A → Bool) where
  abbrev pub insert_before : A → List A → List A
  insert_before x [] = x ∷ []
  insert_before x (y ∷ ys) =
      let rest = insert_before x ys in if before x y then x ∷ y ∷ ys else y ∷ rest

  -- `before x y` keeps `x`, which came first, in front.
  unfoldable pub sort_with : List A → List A
  sort_with [] = []
  sort_with (x ∷ xs) = insert_before x (sort_with xs)

unfoldable pub sort : List Bytes → List Bytes
unfolding sort_with
sort = sort_with at_most
