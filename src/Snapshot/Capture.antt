-- ===== src/Snapshot/Capture.antt =====
-- What a snapshot holds of the worktree, and that it can be read back.
use respawn.Base.{
  ℕ, zero, suc, ◌+◌, ◌≤◌, Bytes, Bool, List, [], ◌∷◌, ◌++◌, ◌≡◌, refl, ap, sym, ◌∙◌, ◌⊎◌, inl, inr,
  All, length, arith, Bool-cases, Option-cases, list_eq, nat_eq,
}
use mathlib.Core.Path.{subst₂}
use respawn.Base.Dict.{lookup, has}
use respawn.Errors.{Result, ok, Result-cases}
use respawn.Crates
use respawn.Crates.{Crates, Collision, hash_hex}
use respawn.Store
use respawn.Store.{Fabric, Zstd, max_object_size, put_object, get_object}
use respawn.Store.Laws.{
  IsHonestIn, Extends, Extends-refl, Extends-trans, put_object-IsHonestIn, put_object-Extends,
  get_object-put_object_in,
}
use respawn.Manifest.{FileEntry}
use respawn.Revert.{read_chunks, materialize}
use respawn.Snapshot.{
  Attempt, Captured, concat, put_chunks, chunk_file, chunk_file_stable, same_stamp, quiesce_retries,
}

-- What fastcdc documents: the chunks make up the content, and none is larger than the bound.
pub record IsCutter (cut : Bytes → List Bytes) : Type 0 where
  pub whole : (b : Bytes) → concat (cut b) ≡ b
  pub fits : (b : Bytes) → All (λ p. length p ≤ max_object_size) (cut b)

module _ (c : Crates) (z : Zstd) where
  get_object-Extends :
      (s t : Fabric) (h content : Bytes)
      → Extends s t
      → get_object c z h s ≡ ok content
      → get_object c z h t ≡ ok content
  unfolding get_object
  get_object-Extends s t h content x e = elim (Option-cases (lookup (hash_hex c h) s.objects)) [
    | inl gone ↦ absurd (cc (rw (gone, get_object) at e))
    | inr (packed, there) ↦ rw (x.objects _ packed there, get_object) (rw (there, get_object) at e)
  ]

  -- What could be read can be read when more was stored.
  pub read_chunks-Extends :
      (s t : Fabric) (hs : List Bytes) (content : Bytes)
      → Extends s t
      → read_chunks c z hs s ≡ ok content
      → read_chunks c z hs t ≡ ok content
  unfolding read_chunks
  read_chunks-Extends s t [] content x e = e
  read_chunks-Extends s t (h ∷ hs) content x e = elim (Result-cases (get_object c z h s)) [
    | inr (f, p) ↦ absurd (cc (rw p at e))
    | inl (b, p) ↦ elim (Result-cases (read_chunks c z hs s)) [
      | inr (f, q) ↦ absurd (cc (rw (p, q) at e))
      | inl (bs, q) ↦
          rw (get_object-Extends s t h b x p, read_chunks-Extends s t hs bs x q) (rw (p, q) at e)
    ]
  ]

  pub materialize-Extends :
      (s t : Fabric) (fe : FileEntry) (content : Bytes)
      → Extends s t
      → materialize c z fe s ≡ ok content
      → materialize c z fe t ≡ ok content
  unfolding materialize
  materialize-Extends s t fe content x e = elim (Result-cases (read_chunks c z fe.chunks s)) [
    | inr (f, p) ↦ absurd (cc (rw p at e))
    | inl (b, p) ↦ rw (read_chunks-Extends s t fe.chunks b x p) (rw p at e)
  ]

-- A step of the store: it only adds, and what it adds is honest and one of the texts of `P`.
pub record IsStep (c : Crates) (z : Zstd) (P : Bytes → Type 0) (s t : Fabric) : Type 0 where
  pub more : Extends s t
  pub honest : IsHonestIn c z P s → IsHonestIn c z P t
  pub manifests : t.manifests ≡ s.manifests
  pub head_file : t.head_file ≡ s.head_file

module _ (c : Crates) (z : Zstd) (P : Bytes → Type 0) (L : Crates.IsLawful c)
    (Z : Store.IsLawful z) where
  pub IsStep-refl : (s : Fabric) → IsStep c z P s s
  IsStep-refl s = record {
    more = Extends-refl s;
    honest = λ h. h;
    manifests = refl;
    head_file = refl;
  }

  pub IsStep-trans : {s t u : Fabric} → IsStep c z P s t → IsStep c z P t u → IsStep c z P s u
  IsStep-trans f g = record {
    more = Extends-trans _ _ _ f.more g.more;
    honest = λ h. g.honest (f.honest h);
    manifests = g.manifests ∙ f.manifests;
    head_file = g.head_file ∙ f.head_file;
  }

  put_object_only :
      (b : Bytes) (s : Fabric)
      → ((put_object c z b s).1.manifests ≡ s.manifests)
        × ((put_object c z b s).1.head_file ≡ s.head_file)
  unfolding put_object
  put_object_only b s = elim (Bool-cases (has (hash_hex c (c.blake3 b)) s.objects)) [
    | inl old ↦ rw old (refl, refl)
    | inr new ↦ elim (Option-cases (z.encode_all b)) [
      | inl e ↦ rw (new, e) (refl, refl)
      | inr (packed, e) ↦ rw (new, e) (refl, refl)
    ]
  ]

  put_chunks-IsStep :
      (bs : List Bytes) (s : Fabric) → All P bs → IsStep c z P s (put_chunks c z bs s).1
  unfolding put_chunks
  put_chunks-IsStep [] s ps = IsStep-refl s
  put_chunks-IsStep (b ∷ bs) s (p, ps) =
      let step : IsStep c z P s (put_object c z b s).1 = record {
        more = put_object-Extends c z b s;
        honest = put_object-IsHonestIn c z L Z P b s p;
        manifests = (put_object_only b s).0;
        head_file = (put_object_only b s).1;
      } in
      let rest = put_chunks-IsStep bs (put_object c z b s).1 ps in
      elim (Result-cases (put_object c z b s).0) [
        | inr (e, q) ↦ rw q step
        | inl (h, q) ↦ elim (Result-cases (put_chunks c z bs (put_object c z b s).1).0) [
          | inr (e, r) ↦ rw (q, r) (IsStep-trans step rest)
          | inl (hs, r) ↦ rw (q, r) (IsStep-trans step rest)
        ]
      ]

  -- Chunks that were stored read back as the text that they make up.
  put_chunks-read_chunks :
      (bs hs : List Bytes) (s : Fabric)
      → All P bs
      → IsHonestIn c z P s
      → All (λ p. length p ≤ max_object_size) bs
      → (put_chunks c z bs s).0 ≡ ok hs
      → (read_chunks c z hs (put_chunks c z bs s).1 ≡ ok (concat bs)) ⊎ Collision c P
  unfolding put_chunks read_chunks
  put_chunks-read_chunks [] hs s ps honest fits e = inl (ground arith)
  put_chunks-read_chunks (b ∷ bs) hs s ps honest fits e =
      let u = (put_object c z b s).1 in
      let v = (put_chunks c z bs u).1 in
      elim (Result-cases (put_object c z b s).0) [
        | inr (f, p) ↦ absurd (cc (rw p at e))
        | inl (h, p) ↦ elim (Result-cases (put_chunks c z bs u).0) [
          | inr (f, q) ↦ absurd (cc (rw (p, q) at e))
          | inl (gs, q) ↦
              let here : put_object c z b s ≡ (ok h, u) = ap (λ r. (r, u)) p in
              elim (get_object-put_object_in c z L Z P b h s u ps.0 honest fits.0 here) [
                | inr hit ↦ inr hit
                | inl one ↦
                    elim (put_chunks-read_chunks bs gs u ps.1
                      (put_object-IsHonestIn c z L Z P b s ps.0 honest) fits.1 q) [
                        | inr hit ↦ inr hit
                        | inl all ↦
                            let step = (put_chunks-IsStep bs u ps.1).more in
                            let same : h ∷ gs ≡ hs = ground (arith, (rw (p, q) at e)) in
                            let final : (put_chunks c z (b ∷ bs) s).1 ≡ v = rw (p, q) refl in
                            inl (
                              subst₂ (λ g t. read_chunks c z g t ≡ ok (b ++ concat bs)) same
                                (sym final)
                                (rw (get_object-Extends c z u v h b step one, all) refl))
                      ]
              ]
        ]
      ]

-- What was captured reads back as the content.
pub record IsReadable (c : Crates) (z : Zstd) (t : Fabric) (captured : Captured) (content : Bytes)
    : Type 0 where
  pub chunks : read_chunks c z captured.chunks t ≡ ok content
  pub hash : captured.content ≡ c.blake3 content
  pub size : captured.size ≡ length content

-- An attempt read the content, and it reads back.
abbrev pub IsObserved : Crates → Zstd → Fabric → (ℕ → Attempt) → Captured → Type 0
IsObserved c z t attempts captured =
    (n : ℕ) × (b : Bytes) × ((attempts n).content ≡ ok b) × IsReadable c z t captured b

-- What capturing a file comes to.
pub record IsCapture (c : Crates) (z : Zstd) (P : Bytes → Type 0) (attempts : ℕ → Attempt)
    (s t : Fabric) (r : Result (Captured × Bool)) : Type 0 where
  pub step : IsStep c z P s t
  pub good :
      (captured : Captured) (changing : Bool)
      → r ≡ ok (captured, changing)
      → IsHonestIn c z P s
      → IsObserved c z t attempts captured ⊎ Collision c P

-- The chunks of what the attempts of one capture see are texts of `P`.
abbrev pub HasChunks : (Bytes → Type 0) → (Bytes → List Bytes) → (ℕ → Attempt) → Type 0
HasChunks P cut attempts =
    (n : ℕ) (b : Bytes) → n ≤ quiesce_retries → (attempts n).content ≡ ok b → All P (cut b)

module _ (c : Crates) (z : Zstd) (P : Bytes → Type 0) (cut : Bytes → List Bytes)
    (L : Crates.IsLawful c) (Z : Store.IsLawful z) (K : IsCutter cut) where
  chunk_file-IsReadable :
      (content : Bytes) (s : Fabric)
      → All P (cut content)
      → IsStep c z P s (chunk_file c z cut content s).1
        × ((captured : Captured)
            → (chunk_file c z cut content s).0 ≡ ok captured
            → IsHonestIn c z P s
            → IsReadable c z (chunk_file c z cut content s).1 captured content ⊎ Collision c P)
  unfolding chunk_file
  chunk_file-IsReadable content s ps =
      let step = put_chunks-IsStep c z P L Z (cut content) s ps in
      elim (Result-cases (put_chunks c z (cut content) s).0) [
        | inr (e, p) ↦ rw p (step, λ captured q h. absurd (cc))
        | inl (hs, p) ↦ rw p (
          step,
          λ captured q h.
              elim (put_chunks-read_chunks c z P L Z (cut content) hs s ps h (K.fits content) p) [
                | inr hit ↦ inr hit
                | inl read ↦
                    let chunks : hs ≡ captured.chunks = ground arith in
                    let hash : c.blake3 (concat (cut content)) ≡ captured.content = ground arith in
                    let size : length (concat (cut content)) ≡ captured.size = ground arith in
                    inl (record {
                      chunks = rw (← chunks) (read ∙ ap ok (K.whole content));
                      hash = sym hash ∙ ap c.blake3 (K.whole content);
                      size = sym size ∙ ap length (K.whole content);
                    })
              ],
        )
      ]

  pub chunk_file_stable-IsCapture :
      (attempts : ℕ → Attempt) (n left : ℕ) (s : Fabric)
      → HasChunks P cut attempts
      → n + left ≤ quiesce_retries
      → IsCapture c z P attempts s
          (chunk_file_stable c z cut attempts n left s).1
          (chunk_file_stable c z cut attempts n left s).0
  unfolding chunk_file_stable
  chunk_file_stable-IsCapture attempts n zero s ps few = elim (Result-cases (attempts n).before) [
    | inr (e, p) ↦ rw p (record { step = IsStep-refl c z P L Z s; good = λ k b q h. absurd (cc) })
    | inl (before, p) ↦ elim (Result-cases (attempts n).content) [
      | inr (e, q) ↦
          rw (p, q) (record { step = IsStep-refl c z P L Z s; good = λ k b r h. absurd (cc) })
      | inl (content, q) ↦
          let (step, good) = chunk_file-IsReadable content s (ps n content (omega arith) q) in
          elim (Result-cases (chunk_file c z cut content s).0) [
            | inr (e, r) ↦ rw (p, q, r) (record { step = step; good = λ k b r' h. absurd (cc) })
            | inl (captured, r) ↦ elim (Result-cases (attempts n).after) [
              | inr (e, t) ↦
                  rw (p, q, r, t) (record { step = step; good = λ k b r' h. absurd (cc) })
              | inl (after, t) ↦
                  rw (p, q, r, t)
                    (record {
                      step = step;
                      good = λ k b same h. elim (good k (r ∙ ap ok (ground arith)) h) [
                        | inl read ↦ inl (n, content, q, read)
                        | inr hit ↦ inr hit
                      ];
                    })
            ]
          ]
    ]
  ]
  chunk_file_stable-IsCapture attempts n (suc left) s ps few =
      elim (Result-cases (attempts n).before) [
        | inr (e, p) ↦
            rw p (record { step = IsStep-refl c z P L Z s; good = λ k b q h. absurd (cc) })
        | inl (before, p) ↦ elim (Result-cases (attempts n).content) [
          | inr (e, q) ↦
              rw (p, q) (record { step = IsStep-refl c z P L Z s; good = λ k b r h. absurd (cc) })
          | inl (content, q) ↦
              let (step, good) = chunk_file-IsReadable content s (ps n content (omega arith) q) in
              elim (Result-cases (chunk_file c z cut content s).0) [
                | inr (e, r) ↦ rw (p, q, r) (record { step = step; good = λ k b r' h. absurd (cc) })
                | inl (captured, r) ↦ elim (Result-cases (attempts n).after) [
                  | inr (e, t) ↦
                      rw (p, q, r, t) (record { step = step; good = λ k b r' h. absurd (cc) })
                  | inl (after, t) ↦ elim (Bool-cases (same_stamp before after)) [
                    | inr changed ↦
                        let again =
                          chunk_file_stable-IsCapture attempts (suc n) left
                            (chunk_file c z cut content s).1 ps (omega arith) in
                        rw (p, q, r, t, changed)
                          (record {
                            step = IsStep-trans c z P L Z step again.step;
                            good = λ k b same h. again.good k b same (step.honest h);
                          })
                    | inl equal ↦
                        rw (p, q, r, t, equal)
                          (record {
                            step = step;
                            good = λ k b same h. elim (good k (r ∙ ap ok (ground arith)) h) [
                              | inl read ↦ inl (n, content, q, read)
                              | inr hit ↦ inr hit
                            ];
                          })
                  ]
                ]
              ]
        ]
      ]
