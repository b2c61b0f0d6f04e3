-- ===== src/Audit/Chain.antt =====
-- What a sound log is, apart from the loops that check it: its entries, in order, number
-- themselves from 0, name the hash of the entry before, and carry their own hash.
use respawn.Base.{
  ℕ, zero, suc, ◌+◌, ◌%◌, ◌<◌, Bytes, ◌≡◌, refl, ◌∙◌, ap, sym, ◌⊎◌, inl, inr, true, false, Option,
  none, some, List, [], ◌∷◌, ◌++◌, arith, length, if◌then◌else◌, list_eq, All, Bool-cases,
  Option-cases,
}
use mathlib.Core.Option
use mathlib.Core.Path.{subst}
use respawn.Lines.{is_blank}
use respawn.Crates
use respawn.Crates.{Crates, Collision, hash_hex}
use respawn.Crates.Laws.{eq_or_Collision}
use respawn.Audit.{AuditEntry, Body, Json, IsLawful, u64_mod, succ64, body_of, entry_hash}

-- The entries of a log, or `none` if one of its lines cannot be read.
unfoldable pub entries_of : Json → List (Option Bytes) → Option (List AuditEntry)
entries_of j [] = some []
entries_of j (none ∷ ls) = none
entries_of j (some l ∷ ls) =
    let rest = entries_of j ls in
    if is_blank l
    then rest
    else elim (j.from_str l) [ none ↦ none | some e ↦ Option.map (λ es. e ∷ es) rest ]

-- The first `k` entries, whatever follows them.
unfoldable pub first_entries : Json → ℕ → List (Option Bytes) → Option (List AuditEntry)
first_entries j zero ls = some []
first_entries j (suc k) [] = none
first_entries j (suc k) (none ∷ ls) = none
first_entries j (suc k) (some l ∷ ls) =
    let skip = first_entries j (suc k) ls in
    if is_blank l then skip else elim (j.from_str l) [
      | none ↦ none
      | some e ↦ Option.map (λ es. e ∷ es) (first_entries j k ls)
    ]

-- The number after `n` and the entries `es`, and the hash that the next entry names.
unfoldable pub advance : ℕ → List AuditEntry → ℕ
advance n [] = n
advance n (e ∷ es) = advance (succ64 n) es

unfoldable pub tip_of : Bytes → List AuditEntry → Bytes
tip_of prev [] = prev
tip_of prev (e ∷ es) = tip_of e.hash es

module _ (c : Crates) (j : Json) where
  abbrev pub IsLink : Bytes → ℕ → AuditEntry → Type 0
  IsLink prev n e = (e.seq ≡ n) × (e.prev ≡ prev) × (e.hash ≡ entry_hash c j (body_of e))

  abbrev pub IsChain : Bytes → ℕ → List AuditEntry → Type 0
  IsChain prev n [] = Unit
  IsChain prev n (e ∷ es) = IsLink prev n e × IsChain e.hash (succ64 n) es

  pub IsChain-append :
      (prev : Bytes) (n : ℕ) (es fs : List AuditEntry)
      → IsChain prev n es
      → IsChain (tip_of prev es) (advance n es) fs
      → IsChain prev n (es ++ fs)
  unfolding tip_of advance
  IsChain-append prev n [] fs h k = k
  IsChain-append prev n (e ∷ es) fs h k = (h.0, IsChain-append e.hash (succ64 n) es fs h.1 k)

  -- The text that is hashed for an entry is one of `P`.
  abbrev pub HasText : (Bytes → Type 0) → Body → Type 0
  HasText P b = (line : Bytes) → j.tuple_to_string b ≡ some line → P line

  entry_hash-Collision :
      Crates.IsLawful c
      → IsLawful j
      → (P : Bytes → Type 0) (a b : Body) → HasText P a
      → HasText P b
      → entry_hash c j a ≡ entry_hash c j b
      → (a ≡ b) ⊎ Collision c P
  unfolding entry_hash
  entry_hash-Collision L M P a b s t e =
      let (x, p) = M.tuple_total a in
      let (y, q) = M.tuple_total b in
      elim (eq_or_Collision c L P x y (s x p) (t y q) (ground arith)) [
        | inl same ↦ inl (M.tuple_injective a b x p (q ∙ ap some (sym same)))
        | inr hit ↦ inr hit
      ]

  -- Two chains of one length with one tip are equal, or two texts of their entries have one hash.
  pub chains_eq :
      Crates.IsLawful c
      → IsLawful j
      → (P : Bytes → Type 0) (p q : Bytes) (n : ℕ) (es fs : List AuditEntry)
      → All (λ e. HasText P (body_of e)) es
      → All (λ e. HasText P (body_of e)) fs
      → length es ≡ length fs
      → IsChain p n es
      → IsChain q n fs
      → tip_of p es ≡ tip_of q fs
      → ((p ≡ q) × (es ≡ fs)) ⊎ Collision c P
  unfolding tip_of
  chains_eq L M P p q n [] [] s t len h k e = inl (e, refl)
  chains_eq L M P p q n [] (f ∷ fs) s t len h k e = absurd (omega arith)
  chains_eq L M P p q n (x ∷ es) [] s t len h k e = absurd (omega arith)
  chains_eq L M P p q n (x ∷ es) (y ∷ fs) s t len h k e =
      elim (chains_eq L M P x.hash y.hash (succ64 n) es fs s.1 t.1 (omega arith) h.1 k.1 e) [
        | inr hit ↦ inr hit
        | inl (tips, rest) ↦
            elim (entry_hash-Collision L M P (body_of x) (body_of y) s.0 t.0 (cc (h.0.2, k.0.2))) [
              | inr hit ↦ inr hit
              | inl same ↦ inl (ground arith)
            ]
      ]

pub advance-eq-mod :
    (n : ℕ) (es : List AuditEntry) → n < u64_mod → advance n es ≡ (n + length es) % u64_mod
unfolding advance
advance-eq-mod n [] h = omega arith
advance-eq-mod n (e ∷ es) h = omega (arith, advance-eq-mod (succ64 n) es (omega arith))

pub entries_of-append :
    (j : Json) (ls : List (Option Bytes)) (l : Bytes) (e : AuditEntry)
    → is_blank l ≡ false
    → j.from_str l ≡ some e
    → entries_of j (ls ++ some l ∷ []) ≡ Option.map (λ es. es ++ e ∷ []) (entries_of j ls)
unfolding entries_of
entries_of-append j [] l e b p = ground arith
entries_of-append j (none ∷ ls) l e b p = refl
entries_of-append j (some x ∷ ls) l e b p = ground (arith, entries_of-append j ls l e b p)

-- The same as a relation, for proofs by induction on how the lines were read.
pub data Reads (j : Json) : List (Option Bytes) → List AuditEntry → Type 0 where
  done : Reads j [] []
  skip :
      {l : Bytes} {ls : List (Option Bytes)} {es : List AuditEntry}
      → is_blank l ≡ true
      → Reads j ls es
      → Reads j (some l ∷ ls) es
  entry :
      {l : Bytes} {ls : List (Option Bytes)} {e : AuditEntry} {es : List AuditEntry}
      → is_blank l ≡ false
      → j.from_str l ≡ some e
      → Reads j ls es
      → Reads j (some l ∷ ls) (e ∷ es)

tail_read :
    (e : AuditEntry) (o : Option (List AuditEntry)) (es : List AuditEntry)
    → Option.map (λ r. e ∷ r) o ≡ some es
    → (r : List AuditEntry) × (o ≡ some r) × (es ≡ e ∷ r)
tail_read e none es h = absurd (cc)
tail_read e (some r) es h = (r, refl, sym (ground arith))

pub Reads-entries_of :
    (j : Json) (ls : List (Option Bytes)) (es : List AuditEntry)
    → entries_of j ls ≡ some es
    → Reads j ls es
unfolding entries_of
Reads-entries_of j [] es h = subst (Reads j []) (ground arith) done
Reads-entries_of j (none ∷ ls) es h = absurd (cc)
Reads-entries_of j (some l ∷ ls) es h = elim (Bool-cases (is_blank l)) [
  | inl b ↦ skip b (Reads-entries_of j ls es (rw b at h))
  | inr b ↦ elim (Option-cases (j.from_str l)) [
    | inl p ↦ absurd (ground arith)
    | inr (e, p) ↦
        let (r, q, same) = tail_read e (entries_of j ls) es (ground arith) in
        subst (Reads j (some l ∷ ls)) (sym same) (entry b p (Reads-entries_of j ls r q))
  ]
]
