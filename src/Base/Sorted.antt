-- ===== src/Base/Sorted.antt =====
-- What a sorted list holds.
use mathlib.Core.Path.{sym, subst}
use mathlib.Core.Logic.{inl, inr}
use mathlib.Core.Bool.{Bool}
use mathlib.Core.List.{List, [], ◌∷◌, ◌++◌, Memᴰ}
use mathlib.Core.List.Memᴰ.{head, tail}
use respawn.Base.Tests.{if◌then◌else◌, Bool-cases}
use respawn.Base.Lists.{All}
use respawn.Base.Sort.{insert_before, sort_with}

module _ {ℓ κ} {A : Type ℓ} (P : A → Type κ) where
  pub All-append : (xs ys : List A) → All P xs → All P ys → All P (xs ++ ys)
  All-append [] ys ps qs = qs
  All-append (x ∷ xs) ys (p, ps) qs = (p, All-append xs ys ps qs)

-- Two at the front, in the other order.
mem_behind {ℓ} :
    {A : Type ℓ} {a x y : A} {ys zs : List A}
    → (Memᴰ a (x ∷ ys) → Memᴰ a zs)
    → Memᴰ a (x ∷ y ∷ ys)
    → Memᴰ a (y ∷ zs)
mem_behind later (head e) = tail (later (head e))
mem_behind later (tail (head e)) = head e
mem_behind later (tail (tail t)) = tail (later (tail t))

module _ {ℓ} {A : Type ℓ} (before : A → A → Bool) where
  All-insert_before :
      (P : A → Type 0) (x : A) (ys : List A) → P x → All P ys → All P (insert_before before x ys)
  All-insert_before P x [] p ps = (p, tt)
  All-insert_before P x (y ∷ ys) p (q, ps) =
      let placed = λ (b : Bool). All P (if b then x ∷ y ∷ ys else y ∷ insert_before before x ys) in
      elim (Bool-cases (before x y)) [
        | inl first ↦ subst placed (sym first) (p, (q, ps))
        | inr later ↦ subst placed (sym later) (q, All-insert_before P x ys p ps)
      ]

  pub All-sort_with : (P : A → Type 0) (xs : List A) → All P xs → All P (sort_with before xs)
  unfolding sort_with
  All-sort_with P [] ps = tt
  All-sort_with P (x ∷ xs) (p, ps) = All-insert_before P x _ p (All-sort_with P xs ps)

  mem-insert_before :
      {a : A} (x : A) (ys : List A) → Memᴰ a (x ∷ ys) → Memᴰ a (insert_before before x ys)
  mem-insert_before x [] h = h
  mem-insert_before {a = a} x (y ∷ ys) h =
      let placed = λ (b : Bool). Memᴰ a (if b then x ∷ y ∷ ys else y ∷ insert_before before x ys) in
      let later = λ (t : Memᴰ a (x ∷ ys)). mem-insert_before x ys t in
      elim (Bool-cases (before x y)) [
        | inl first ↦ subst placed (sym first) h
        | inr after ↦ subst placed (sym after) (mem_behind later h)
      ]

  pub mem-sort_with : {a : A} (xs : List A) → Memᴰ a xs → Memᴰ a (sort_with before xs)
  unfolding sort_with
  mem-sort_with [] h = h
  mem-sort_with (x ∷ xs) (head e) = mem-insert_before x _ (head e)
  mem-sort_with (x ∷ xs) (tail t) = mem-insert_before x _ (tail (mem-sort_with xs t))
