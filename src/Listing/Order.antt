-- ===== src/Listing/Order.antt =====
-- The order of a listing.
use respawn.Base.{
  ◌≤◌, Bytes, ◌||◌, List, [], ◌∷◌, ◌++◌, contains, leb→le, ◌==◌, list_eq, nat_eq, ◌≡◌, refl, ap,
  ◌∙◌, inl, inr, arith, Bool-cases,
}
use respawn.Base.Sort.{sort_with, insert_before}
use respawn.Listing.{Entry, ids, newest_first}

-- Each entry is as new as the next, or newer.
abbrev pub IsNewestFirst : List Entry → Type 0
IsNewestFirst [] = Unit
IsNewestFirst (e ∷ []) = Unit
IsNewestFirst (e ∷ f ∷ es) = (f.1.timestamp_secs ≤ e.1.timestamp_secs) × IsNewestFirst (f ∷ es)

insert_before-IsNewestFirst :
    (x : Entry) (es : List Entry)
    → IsNewestFirst es
    → IsNewestFirst (insert_before newest_first x es)
insert_before-IsNewestFirst x [] h = tt
insert_before-IsNewestFirst x (e ∷ []) h = elim (Bool-cases (newest_first x e)) [
  | inl first ↦ rw first (leb→le _ _ first, tt)
  | inr later ↦ rw later (ground arith, tt)
]
insert_before-IsNewestFirst x (e ∷ f ∷ es) (le, h) = elim (Bool-cases (newest_first x e)) [
  | inl first ↦ rw first (leb→le _ _ first, (le, h))
  | inr later ↦
      let rest = insert_before-IsNewestFirst x (f ∷ es) h in
      rw later (elim (Bool-cases (newest_first x f)) [
        | inl second ↦ rw second (ground arith, (rw second at rest))
        | inr third ↦ rw third (le, (rw third at rest))
      ])
]

pub sort-IsNewestFirst : (es : List Entry) → IsNewestFirst (sort_with newest_first es)
unfolding sort_with
sort-IsNewestFirst [] = tt
sort-IsNewestFirst (e ∷ es) = insert_before-IsNewestFirst e _ (sort-IsNewestFirst es)

contains-insert_before :
    (x : Entry) (es : List Entry) (id : Bytes)
    → contains (ids (insert_before newest_first x es)) id ≡ (id == x.0 || contains (ids es) id)
contains-insert_before x [] id = refl
contains-insert_before x (e ∷ es) id = elim (Bool-cases (newest_first x e)) [
  | inl first ↦ rw first refl
  | inr later ↦ rw later (ground (arith, contains-insert_before x es id))
]

pub contains-sort :
    (es : List Entry) (id : Bytes)
    → contains (ids (sort_with newest_first es)) id ≡ contains (ids es) id
unfolding sort_with
contains-sort [] id = refl
contains-sort (e ∷ es) id =
    contains-insert_before e (sort_with newest_first es) id
    ∙ ap (λ b. id == e.0 || b) (contains-sort es id)

pub contains-append :
    (es fs : List Entry) (id : Bytes)
    → contains (ids (es ++ fs)) id ≡ (contains (ids es) id || contains (ids fs) id)
contains-append [] fs id = refl
contains-append (e ∷ es) fs id = ground (arith, contains-append es fs id)
