-- ===== src/Transport/Secure/Sealed.antt =====
-- A frame that was sealed and sent is received as it was.
use mathlib.Core.Path.{subst, subst₂}
use mathlib.Core.List.{append_assoc, append-nil}
use respawn.Base.{
  ℕ, zero, suc, ◌+◌, ◌^◌, ◌≤◌, ◌<◌, Bytes, true, false, some, List, [], ◌∷◌, ◌++◌, length, take,
  drop, ltb, ◌==◌, nat_eq, ◌≡◌, refl, sym, ap, ◌∙◌, All, arith, le→ltb_false, ==_refl, Option-cases,
  Bool-cases, inl, inr, length-append, length-take, length-drop, lt→ltb,
}
use respawn.Errors.{ok, Result-cases}
use respawn.Exec.{Exec, pure, ◌>>=◌}
use respawn.Sync.{to_le_bytes, batches, concat_all}
use respawn.Sync.Frames.{from_le_bytes-to_le_bytes, length-to_le_bytes}
use respawn.Transport.{max_frame, plaintext_msg}
use respawn.Transport.Reading.{receiving, sending, message, read_msg-eq, write_msg-eq}
use respawn.Transport.Secure.{
  Noise, SecureStream, opened, read_sealed, write_sealed, read_rest, read_frame, write_chunks,
  write_frame,
}

-- What the documentation of Noise says of two transport states that finished one handshake
-- (`IsPaired`): what one seals the other opens, in order, and sealing adds a tag of 16 bytes.
pub record IsLawful {I T : Type 0} (noise : Noise I T) (IsPaired : T → T → Type 0) : Type 0 where
  pub unseal-seal :
      (content packed : Bytes) (a a' b : T)
      → IsPaired a b
      → noise.seal content a ≡ some (packed, a')
      → (b' : T) × (noise.unseal packed b ≡ some (content, b')) × IsPaired a' b'
  pub length-seal :
      (content packed : Bytes) (a a' : T)
      → noise.seal content a ≡ some (packed, a')
      → length packed ≡ length content + 16

module _ {I T : Type 0} (noise : Noise I T) {IsPaired : T → T → Type 0}
    (lawful : IsLawful noise IsPaired) where
  abbrev pub hears : Bytes → SecureStream T → SecureStream T
  hears b r = record r { stream = receiving b r.stream }

  abbrev pub left_with : Bytes → T → SecureStream T → SecureStream T
  left_with rest t r = record { stream = receiving rest r.stream; transport = t }

  -- From `w` to `w'` so many bytes were sent that a paired reader gets `a` out of them with `m`,
  -- and is paired with `w'` afterwards.
  record Carries {A : Type 0} (w w' : SecureStream T) (m : Exec (SecureStream T) A) (a : A)
      : Type 0 where
    bytes : Bytes
    sent : w'.stream ≡ sending bytes w.stream
    heard :
        (rest : Bytes) (r : SecureStream T)
        → IsPaired w.transport r.transport
        → (t : T) × (m (hears (bytes ++ rest) r) ≡ (ok a, left_with rest t r))
          × IsPaired w'.transport t

  Carries-pure : {A : Type 0} (w : SecureStream T) (a : A) → Carries w w (pure a) a
  Carries-pure w a = record {
    bytes = [];
    sent = sym (ap (λ o. record w.stream { outgoing = o }) (append-nil w.stream.outgoing));
    heard = λ rest r paired. (r.transport, refl, paired);
  }

  Carries-bind :
      {A B : Type 0} {w u v : SecureStream T} {m : Exec (SecureStream T) A} {a : A} {b : B}
      (f : A → Exec (SecureStream T) B)
      → Carries w u m a
      → Carries u v (f a) b
      → Carries w v (m >>= f) b
  Carries-bind {w = w} f first later = record {
    bytes = first.bytes ++ later.bytes;
    sent =
        later.sent
        ∙ ap (sending later.bytes) first.sent
        ∙ ap (λ o. record w.stream { outgoing = o })
            (append_assoc w.stream.outgoing first.bytes later.bytes);
    heard = λ rest r paired.
        let (t, step, after) = first.heard (later.bytes ++ rest) r paired in
        let (t', step', after') = later.heard rest (left_with [] t r) after in
        (t', rw (append_assoc first.bytes later.bytes rest, step) step', after');
  }

  write_sealed-Carries :
      (content : Bytes) (w w' : SecureStream T)
      → length content ≤ plaintext_msg
      → write_sealed noise content w ≡ (ok tt, w')
      → Carries w w' (read_sealed noise) content
  unfolding write_sealed read_sealed
  write_sealed-Carries content w w' small e = elim (Option-cases (noise.seal content w.transport)) [
    | inl bad ↦ absurd (cc (rw (bad, write_sealed) at e))
    | inr ((packed, t), good) ↦
        let size = lawful.length-seal content packed w.transport t good in
        let written = write_msg-eq packed w.stream (omega arith) in
        let left : record { stream = sending (message packed) w.stream; transport = t } ≡ w' =
          ap (λ p. p.1) (rw (good, written, write_sealed) at e) in
        subst (λ v. Carries w v (read_sealed noise) content) left
          (record {
            bytes = message packed;
            sent = refl;
            heard = λ rest r paired.
                let (t', step, after) =
                  lawful.unseal-seal content packed w.transport t r.transport paired good in
                (
                  t',
                  rw
                      (
                        read_msg-eq (plaintext_msg + 64) packed rest r.stream (omega arith)
                            (omega arith) (omega arith),
                        step,
                        opened,
                      )
                      refl,
                  after,
                );
          })
  ]

  -- One round of the loop.
  read_rest-Carries :
      (fuel app_len : ℕ) (out b x : Bytes) (w u v : SecureStream T)
      → 0 < length b
      → length out + length b ≤ app_len
      → Carries w u (read_sealed noise) b
      → Carries u v (read_rest noise fuel app_len (out ++ b)) x
      → Carries w v (read_rest noise (suc fuel) app_len out) x
  unfolding read_rest
  read_rest-Carries fuel app_len out b x w u v some_bytes fits first later =
      let is_some : (length b == 0) ≡ false = ground arith in
      rw (lt→ltb (length out) app_len (omega arith)) (
        Carries-bind _ first
          (rw (le→ltb_false app_len (length out + length b) fits, is_some) later))

  -- What a call that succeeds in two steps has done.
  write_chunks-Carries :
      (chunks : List Bytes) (fuel app_len : ℕ) (out : Bytes) (w w' : SecureStream T)
      → All (λ b. (0 < length b) × (length b ≤ plaintext_msg)) chunks
      → length chunks ≤ fuel
      → length out + length (concat_all chunks) ≡ app_len
      → write_chunks noise chunks w ≡ (ok tt, w')
      → Carries w w' (read_rest noise fuel app_len out) (out ++ concat_all chunks)
  unfolding write_chunks read_rest
  write_chunks-Carries [] zero app_len out w w' sizes enough whole e =
      subst₂ (λ v x. Carries w v (pure out) x) (ap (λ p. p.1) e) (sym (append-nil out))
        (Carries-pure w out)
  write_chunks-Carries [] (suc fuel) app_len out w w' sizes enough whole e =
      rw (le→ltb_false (length out) app_len (omega arith)) (
        subst₂ (λ v x. Carries w v (pure out) x) (ap (λ p. p.1) e) (sym (append-nil out))
          (Carries-pure w out))
  write_chunks-Carries (b ∷ bs) zero app_len out w w' sizes enough whole e = absurd (omega arith)
  write_chunks-Carries (b ∷ bs) (suc fuel) app_len out w w' ((some_bytes, small), sizes) enough
        whole e =
      let u = (write_sealed noise b w).1 in
      elim (Result-cases (write_sealed noise b w).0) [
        | inr (bad, p) ↦ absurd (cc (rw p at e))
        | inl (done, p) ↦
            let first = write_sealed-Carries b w u small (ap (λ r. (r, u)) p) in
            let length_whole = length-append b (concat_all bs) in
            let later =
              write_chunks-Carries bs fuel app_len (out ++ b) u w' sizes (omega arith)
                (omega (arith, length-append out b)) (rw p at e) in
            read_rest-Carries fuel app_len out b (out ++ (b ++ concat_all bs)) w u w' some_bytes
              (omega arith) first
              (subst (λ x. Carries u w' (read_rest noise fuel app_len (out ++ b)) x)
                (append_assoc out b (concat_all bs)) later)
      ]

  -- The chunks of a payload are not empty, fit into messages, and make up the payload.
  batches-fit :
      (fuel : ℕ) (payload : Bytes)
      → All (λ b. (0 < length b) × (length b ≤ plaintext_msg)) (batches fuel plaintext_msg payload)
  unfolding batches
  batches-fit zero payload = tt
  batches-fit (suc fuel) [] = tt
  batches-fit (suc fuel) (x ∷ xs) = (
    (
      omega (arith, length-take plaintext_msg (x ∷ xs)),
      omega (arith, length-take plaintext_msg (x ∷ xs)),
    ),
    batches-fit fuel (drop plaintext_msg (x ∷ xs)),
  )

  length-batches : (fuel : ℕ) (payload : Bytes) → length (batches fuel plaintext_msg payload) ≤ fuel
  unfolding batches
  length-batches zero payload = omega arith
  length-batches (suc fuel) [] = omega arith
  length-batches (suc fuel) (x ∷ xs) =
      omega (arith, length-batches fuel (drop plaintext_msg (x ∷ xs)))

  take-drop : (n : ℕ) (xs : Bytes) → take n xs ++ drop n xs ≡ xs
  take-drop zero xs = refl
  take-drop (suc n) [] = refl
  take-drop (suc n) (x ∷ xs) = ap (λ l. x ∷ l) (take-drop n xs)

  concat_all-batches :
      (fuel : ℕ) (payload : Bytes)
      → length payload ≤ fuel
      → concat_all (batches fuel plaintext_msg payload) ≡ payload
  unfolding batches
  concat_all-batches zero [] enough = refl
  concat_all-batches zero (x ∷ xs) enough = absurd (omega arith)
  concat_all-batches (suc fuel) [] enough = refl
  concat_all-batches (suc fuel) (x ∷ xs) enough =
      rw
        (concat_all-batches fuel (drop plaintext_msg (x ∷ xs))
          (omega (arith, length-drop plaintext_msg (x ∷ xs))))
        (take-drop plaintext_msg (x ∷ xs))

  four_is_four : ◌==◌ {A = ℕ} 4 4 ≡ true
  four_is_four = ==_refl {A = ℕ} 4

  write_frame-Carries :
      (payload : Bytes) (w w' : SecureStream T)
      → write_frame noise payload w ≡ (ok tt, w')
      → Carries w w' (read_frame noise) payload
  unfolding write_frame read_frame
  write_frame-Carries payload w w' e =
      let n = length payload in
      let header = to_le_bytes 4 n in
      let u = (write_sealed noise header w).1 in
      let chunks = batches n plaintext_msg payload in
      let whole = concat_all-batches n payload (omega arith) in
      let total : 0 + length (concat_all chunks) ≡ n = omega (arith, ap length whole) in
      let is_four : length header ≡ 4 = length-to_le_bytes 4 n in
      elim (Bool-cases (ltb max_frame n)) [
        | inl big ↦ absurd (cc (rw big at e))
        | inr fits ↦ elim (Result-cases (write_sealed noise header w).0) [
          | inr (bad, p) ↦ absurd (cc (rw (fits, p) at e))
          | inl (done, p) ↦
              let small : n < 256 ^ 4 = ground arith in
              let first = write_sealed-Carries header w u (omega arith) (ap (λ r. (r, u)) p) in
              let later =
                write_chunks-Carries chunks n n [] u w' (batches-fit n payload)
                  (length-batches n payload) total (rw (fits, p) at e) in
              Carries-bind _ first (
                rw (is_four, four_is_four, from_le_bytes-to_le_bytes 4 n small, fits)
                  (subst (λ x. Carries u w' (read_rest noise n n []) x) whole later))
        ]
      ]

  -- A frame that write_frame sent over Noise is what read_frame at the other end of the handshake
  -- returns, whatever follows it, and both ends are paired again.
  pub read_frame-write_frame_sealed :
      (payload rest : Bytes) (w w' r : SecureStream T)
      → IsPaired w.transport r.transport
      → write_frame noise payload w ≡ (ok tt, w')
      → w.stream.outgoing ≡ []
      → (t : T) × (read_frame noise (hears (w'.stream.outgoing ++ rest) r)
          ≡ (ok payload, left_with rest t r))
        × IsPaired w'.transport t
  read_frame-write_frame_sealed payload rest w w' r paired e fresh =
      let carried = write_frame-Carries payload w w' e in
      let all_sent : w'.stream.outgoing ≡ carried.bytes =
        ap (λ s. s.outgoing) carried.sent ∙ ap (λ o. o ++ carried.bytes) fresh in
      rw all_sent (carried.heard rest r paired)
