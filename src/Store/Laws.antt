-- ===== src/Store/Laws.antt =====
-- What is read from the store is what was put in, whatever happened to the files.
use respawn.Base.{
  ℕ, ◌+◌, ◌≤◌, Bytes, ◌≡◌, refl, ◌∙◌, ap, sym, ◌⊎◌, inl, inr, true, false, none, some, [], ◌∷◌,
  take, length, ltb, ◌==◌, list_eq, nat_eq, arith, all, take_of_le, ==_refl, Bool-cases,
  Option-cases, le_suc, le→ltb_false,
}
use respawn.Base.Dict.{
  Dict, has-eq_false, lookup, insert, has, lookup-insert_self, lookup-insert_ne, has-eq_true,
}
use mathlib.Core.Option.{some-injective}
use mathlib.Core.Path.{subst, subst₂}
use respawn.Errors.{Result, ok}
use respawn.Lines.{trim, trim_start, trim_end}
use respawn.Crates
use respawn.Crates.{Crates, Collision, IsHash, hash_hex, is_lower_hex, parse_hash}
use respawn.Crates.Laws.{eq_or_Collision, parse_hash-hash_hex}
use respawn.Store.{
  Fabric, Zstd, IsLawful, max_object_size, put_object, put_object_as, get_object, head, set_head,
  put_manifest, put_manifest_as,
}

-- The compressed bytes hold the content.
pub record IsPacked (z : Zstd) (packed content : Bytes) : Type 0 where
  pub at : (n : ℕ) → z.read_decoded n packed ≡ some (take n content)

-- Every file of `objects` holds content whose hash is its name.
pub record IsHonest (c : Crates) (z : Zstd) (s : Fabric) : Type 0 where
  pub at :
      (name packed : Bytes)
      → lookup name s.objects ≡ some packed
      → (content : Bytes) × IsPacked z packed content × (name ≡ hash_hex c (c.blake3 content))

-- The same, with contents that are texts of `P`.
pub record IsHonestIn (c : Crates) (z : Zstd) (P : Bytes → Type 0) (s : Fabric) : Type 0 where
  pub at :
      (name packed : Bytes)
      → lookup name s.objects ≡ some packed
      → (content : Bytes) × IsPacked z packed content
        × (name ≡ hash_hex c (c.blake3 content))
        × P content

-- A content that the store holds under the name of its hash.
pub record IsHeld (c : Crates) (z : Zstd) (s : Fabric) (content : Bytes) : Type 0 where
  pub packed : Bytes
  pub found : lookup (hash_hex c (c.blake3 content)) s.objects ≡ some packed
  pub holds : IsPacked z packed content

module _ (c : Crates) (z : Zstd) (s : Fabric) where
  pub IsHonestIn-held :
      (P : Bytes → Type 0)
      → IsHonest c z s
      → ((content : Bytes) → IsHeld c z s content → P content)
      → IsHonestIn c z P s
  IsHonestIn-held P h all = record {
    at = λ name packed found.
        let (content, holds, named) = h.at name packed found in
        let held : lookup (hash_hex c (c.blake3 content)) s.objects ≡ some packed =
          ap (λ n. lookup n s.objects) (sym named) ∙ found in
        (
          content,
          holds,
          named,
          all content (record { packed = packed; found = held; holds = holds }),
        );
  }

  IsHonest-IsHonestIn : {P : Bytes → Type 0} → IsHonestIn c z P s → IsHonest c z s
  IsHonest-IsHonestIn h = record {
    at = λ name packed found.
        let (content, holds, named, is) = h.at name packed found in (content, holds, named);
  }

module _ (c : Crates) (z : Zstd) where
  -- A read that succeeds gives content of that hash, within the bound.
  pub get_object-eq_ok :
      (h content : Bytes) (s : Fabric)
      → get_object c z h s ≡ ok content
      → (c.blake3 content ≡ h) × (length content ≤ max_object_size)
  unfolding get_object
  get_object-eq_ok h content s e = ground arith

  put_object-id :
      (content h : Bytes) (s : Fabric) → (put_object c z content s).0 ≡ ok h → c.blake3 content ≡ h
  unfolding put_object
  put_object-id content h s e = elim (Bool-cases (has (hash_hex c (c.blake3 content)) s.objects)) [
    | inl old ↦ ground (arith, (rw old at e))
    | inr new ↦ elim (Option-cases (z.encode_all content)) [
      | inl f ↦ absurd (ground (arith, (rw (new, f) at e)))
      | inr (packed, f) ↦ ground (arith, (rw (new, f) at e))
    ]
  ]

  -- Content was stored, and then anything was done to the files of the fabric. A read with the id
  -- of the content fails, or returns at most the chunk bound, and the content as it was or another
  -- text that has one hash with it.
  pub get_object-genuine :
      Crates.IsLawful c
      → (content h read : Bytes) (s tampered : Fabric) → (put_object c z content s).0 ≡ ok h
      → get_object c z h tampered ≡ ok read
      → (length read ≤ max_object_size)
        × ((read ≡ content) ⊎ Collision c (λ text. (text ≡ read) ⊎ (text ≡ content)))
  get_object-genuine L content h read s tampered stored e =
      let (same_hash, fits) = get_object-eq_ok h read tampered e in
      (
        fits,
        eq_or_Collision c L (λ text. (text ≡ read) ⊎ (text ≡ content)) read content (inl refl)
            (inr refl) (ap (hash_hex c) (same_hash ∙ sym (put_object-id content h s stored))),
      )

module _ (c : Crates) (z : Zstd) (L : Crates.IsLawful c) (Z : IsLawful z) where
  pair_parts :
      (g h : Bytes) (s t : Fabric)
      → ◌≡◌ {A = Result Bytes × Fabric} (ok g, s) (ok h, t)
      → (g ≡ h) × (s ≡ t)
  pair_parts g h s t e = (ground arith, ap (λ p. p.1) e)

  IsPacked-encode :
      (content packed : Bytes) → z.encode_all content ≡ some packed → IsPacked z packed content
  IsPacked-encode content packed e = record { at = λ n. Z.read-encode content packed n e }

  get_packed :
      (content packed : Bytes) (s : Fabric)
      → lookup (hash_hex c (c.blake3 content)) s.objects ≡ some packed
      → IsPacked z packed content
      → length content ≤ max_object_size
      → get_object c z (c.blake3 content) s ≡ ok content
  unfolding get_object
  get_packed content packed s e p fits =
      let whole : take (max_object_size + 1) content ≡ content =
        take_of_le (max_object_size + 1) content (le_suc _ _ fits) in
      let bound : ltb max_object_size (length content) ≡ false = le→ltb_false _ _ fits in
      rw (e, get_object, p.at (max_object_size + 1), whole, bound, ==_refl (c.blake3 content))

  insert-IsHonestIn :
      (P : Bytes → Type 0) (content packed : Bytes) (s : Fabric)
      → P content
      → z.encode_all content ≡ some packed
      → IsHonestIn c z P s
      → IsHonestIn c z P
          (record s { objects = insert (hash_hex c (c.blake3 content)) packed s.objects })
  insert-IsHonestIn P content packed s p e h = record {
    at = λ name q found. elim (list_eq.dec name (hash_hex c (c.blake3 content))) [
      | yes same ↦
          let is_packed : some packed ≡ some q =
            sym (lookup-insert_self name packed s.objects)
            ∙ ap (λ k. lookup name (insert k packed s.objects)) same
            ∙ found in
          (
            content,
            subst (λ r. IsPacked z r content) (some-injective packed q is_packed)
                (IsPacked-encode content packed e),
            same,
            p,
          )
      | no other ↦ h.at name q (sym (lookup-insert_ne name _ packed s.objects other) ∙ found)
    ];
  }

  -- Storing keeps the store honest, on success and on failure.
  pub put_object-IsHonestIn :
      (P : Bytes → Type 0) (content : Bytes) (s : Fabric)
      → P content
      → IsHonestIn c z P s
      → IsHonestIn c z P (put_object c z content s).1
  unfolding put_object
  put_object-IsHonestIn P content s p h =
      elim (Bool-cases (has (hash_hex c (c.blake3 content)) s.objects)) [
        | inl old ↦ rw old h
        | inr new ↦ elim (Option-cases (z.encode_all content)) [
          | inl e ↦ rw (new, e) h
          | inr (packed, e) ↦ rw (new, e) (insert-IsHonestIn P content packed s p e h)
        ]
      ]

  put_object-IsHonest :
      (content : Bytes) (s : Fabric) → IsHonest c z s → IsHonest c z (put_object c z content s).1
  put_object-IsHonest content s h =
      let any = λ (b : Bytes). Unit {0} in
      IsHonest-IsHonestIn c z _
        (put_object-IsHonestIn any content s tt (IsHonestIn-held c z s any h (λ b held. tt)))

  pub put_object_as-IsHonest :
      (g content : Bytes) (s : Fabric)
      → IsHonest c z s
      → IsHonest c z (put_object_as c z g content s).1
  unfolding put_object_as
  put_object_as-IsHonest g content s h = elim (Bool-cases (c.blake3 content == g)) [
    | inl e ↦ rw e (put_object-IsHonest content s h)
    | inr e ↦ rw e h
  ]

  pub get_object-put_object_in :
      (P : Bytes → Type 0) (content h : Bytes) (s s' : Fabric)
      → P content
      → IsHonestIn c z P s
      → length content ≤ max_object_size
      → put_object c z content s ≡ (ok h, s')
      → (get_object c z h s' ≡ ok content) ⊎ Collision c P
  unfolding put_object
  get_object-put_object_in P content h s s' is honest fits e =
      elim (Bool-cases (has (hash_hex c (c.blake3 content)) s.objects)) [
        | inl old ↦
            let (packed, found) = has-eq_true _ s.objects old in
            let (stored, holds, named, stored_is) = honest.at _ packed found in
            let (same_h, same_s) = pair_parts _ _ _ _ (rw old at e) in
            elim (eq_or_Collision c L P content stored is stored_is named) [
              | inr hit ↦ inr hit
              | inl same ↦ inl (
                  subst₂ (λ g t. get_object c z g t ≡ ok content) same_h same_s
                    (get_packed content packed s found (subst (IsPacked z packed) (sym same) holds)
                      fits))
            ]
        | inr new ↦ elim (Option-cases (z.encode_all content)) [
          | inl fails ↦ absurd (ground arith)
          | inr (packed, q) ↦
              let (same_h, same_s) = pair_parts _ _ _ _ (rw (new, q) at e) in
              inl (
                subst₂ (λ g t. get_object c z g t ≡ ok content) same_h same_s
                  (get_packed content packed _ (lookup-insert_self _ packed s.objects)
                    (IsPacked-encode content packed q) fits))
        ]
      ]

  -- Into an honest store of any history, content of at most the chunk bound that is stored reads
  -- back as it was, or the store held another text that has one hash with it.
  pub get_object-put_object :
      (content h : Bytes) (s s' : Fabric)
      → IsHonest c z s
      → length content ≤ max_object_size
      → put_object c z content s ≡ (ok h, s')
      → (get_object c z h s' ≡ ok content)
        ⊎ Collision c (λ text. (text ≡ content) ⊎ IsHeld c z s text)
  get_object-put_object content h s s' honest fits e =
      let at_hand = λ (text : Bytes). (text ≡ content) ⊎ IsHeld c z s text in
      get_object-put_object_in at_hand content h s s' (inl refl)
        (IsHonestIn-held c z s at_hand honest (λ b held. inr held)) fits e

-- What the store holds is never written over: every object and manifest stays as it is.
pub record Extends (s s' : Fabric) : Type 0 where
  pub objects :
      (name packed : Bytes)
      → lookup name s.objects ≡ some packed
      → lookup name s'.objects ≡ some packed
  pub manifests :
      (name content : Bytes)
      → lookup name s.manifests ≡ some content
      → lookup name s'.manifests ≡ some content

pub Extends-refl : (s : Fabric) → Extends s s
Extends-refl s = record { objects = λ n p e. e; manifests = λ n p e. e }

pub Extends-trans : (s t u : Fabric) → Extends s t → Extends t u → Extends s u
Extends-trans s t u f g = record {
  objects = λ n p e. g.objects n p (f.objects n p e);
  manifests = λ n p e. g.manifests n p (f.manifests n p e);
}

keeps_insert :
    (d : Dict Bytes Bytes) (k v : Bytes)
    → has k d ≡ false
    → (name packed : Bytes) → lookup name d ≡ some packed
    → lookup name (insert k v d) ≡ some packed
keeps_insert d k v new name packed e =
    lookup-insert_ne name k v d (λ same. cc (has-eq_false k d new, ap (λ n. lookup n d) same)) ∙ e

module _ (c : Crates) (z : Zstd) where
  pub put_object-Extends : (content : Bytes) (s : Fabric) → Extends s (put_object c z content s).1
  unfolding put_object
  put_object-Extends content s = elim (Bool-cases (has (hash_hex c (c.blake3 content)) s.objects)) [
    | inl old ↦ rw old (Extends-refl s)
    | inr new ↦ elim (Option-cases (z.encode_all content)) [
      | inl e ↦ rw (new, e) (Extends-refl s)
      | inr (packed, e) ↦
          rw (new, e)
            (record { objects = keeps_insert s.objects _ packed new; manifests = λ n p q. q })
    ]
  ]

  pub put_object_as-Extends :
      (h content : Bytes) (s : Fabric) → Extends s (put_object_as c z h content s).1
  unfolding put_object_as
  put_object_as-Extends h content s = elim (Bool-cases (c.blake3 content == h)) [
    | inl e ↦ rw e (put_object-Extends content s)
    | inr e ↦ rw e (Extends-refl s)
  ]

  pub put_manifest-Extends : (content : Bytes) (s : Fabric) → Extends s (put_manifest c content s).1
  unfolding put_manifest
  put_manifest-Extends content s =
      elim (Bool-cases (has (hash_hex c (c.blake3 content)) s.manifests)) [
        | inl old ↦ rw old (Extends-refl s)
        | inr new ↦
            rw new
              (record { objects = λ n p q. q; manifests = keeps_insert s.manifests _ content new })
      ]

  pub put_manifest_as-Extends :
      (h content : Bytes) (s : Fabric) → Extends s (put_manifest_as c h content s).1
  unfolding put_manifest_as
  put_manifest_as-Extends h content s = elim (Bool-cases (c.blake3 content == h)) [
    | inl e ↦ rw e (put_manifest-Extends content s)
    | inr e ↦ rw e (Extends-refl s)
  ]

trim_start_digits : (s : Bytes) → all is_lower_hex s ≡ true → trim_start s ≡ s
trim_start_digits [] h = refl
trim_start_digits (b ∷ s) h = ground arith

trim_end_digits : (s : Bytes) → all is_lower_hex s ≡ true → trim_end s ≡ s
trim_end_digits [] h = refl
trim_end_digits (b ∷ s) h = ground (arith, trim_end_digits s)

trim_digits : (s : Bytes) → all is_lower_hex s ≡ true → trim s ≡ s
unfolding trim
trim_digits s h = rw (trim_start_digits s h) (trim_end_digits s h)

module _ (c : Crates) (L : Crates.IsLawful c) where
  -- HEAD reads back as it was set, to a snapshot or to none.
  pub head-set_head :
      (s : Fabric)
      → ((h : Bytes) → IsHash h → head c (set_head c (some h) s) ≡ ok (some h))
        × (head c (set_head c none s) ≡ ok none)
  unfolding head set_head trim list_eq
  head-set_head s = (
    λ h i.
        rw (trim_digits (hash_hex c h) (L.encode_digits h i.bytes), (parse_hash-hash_hex c L h i).0)
          (ground (arith, L.length-encode h, i.size)),
    refl,
  )
