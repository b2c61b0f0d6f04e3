-- ===== src/Transport/Plain.antt =====
-- src/secure.rs: `PlainStream`.
use respawn.Base.{
  ℕ, zero, suc, ◌+◌, ◌-◌, ◌*◌, ◌≤◌, ◌<◌, Bytes, true, false, [], ◌∷◌, ◌++◌, length, take, drop, ltb,
  ◌==◌, nat_eq, if◌then◌else◌, ◌≡◌, refl, sym, ap, arith, Bool-cases, inl, inr, le→ltb_false,
  lt→ltb, ltb→lt, length-drop,
}
use mathlib.Core.List.{append_assoc}
use mathlib.Core.Path.{fun_ext}
use respawn.Errors.{ok, sync, refuse_if}
use respawn.Exec.{Exec, pure, lift, ◌>>=◌, ◌>>◌}
use respawn.Sync.{to_le_bytes, from_le_bytes}
use respawn.Sync.Frames.{from_le_bytes-to_le_bytes, length-to_le_bytes}
use respawn.Transport.Reading.{receiving, sending, message, read_exact-append}
use respawn.Transport.{Wire, read_exact, write_all, max_frame}

-- The loop of `read_frame` in reads of at most `piece` bytes; `remaining` is fuel enough.
unfoldable pub read_pieces : ℕ → ℕ → ℕ → Exec Wire Bytes
read_pieces piece zero remaining s = (ok [], s)
read_pieces piece (suc fuel) remaining s =
    let more = read_pieces piece fuel in
    let n = if ltb piece remaining then piece else remaining in
    if remaining == 0
    then (ok [], s)
    else (do front ← read_exact n; back ← more (remaining - n); pure (front ++ back)) s

abbrev pub read_piece : ℕ
read_piece = 256 * 1024

unfoldable pub read_frame : Exec Wire Bytes
read_frame = do
  len_buf ← read_exact 4
  lift (refuse_if (ltb max_frame (from_le_bytes len_buf)) (sync "frame too large"))
  read_pieces read_piece (from_le_bytes len_buf) (from_le_bytes len_buf)

unfoldable pub write_frame : Bytes → Exec Wire (Unit {0})
write_frame payload = do write_all (to_le_bytes 4 (length payload)); write_all payload

take_split : (n k r : ℕ) (xs : Bytes) → n + k ≡ r → take n xs ++ take k (drop n xs) ≡ take r xs
take_split zero k r xs e = ap (λ m. take m xs) (omega arith)
take_split (suc n) k zero xs e = absurd (omega arith)
take_split (suc n) zero (suc r) [] e = refl
take_split (suc n) (suc k) (suc r) [] e = refl
take_split (suc n) k (suc r) (x ∷ xs) e = ap (λ l. x ∷ l) (take_split n k r xs (omega arith))

drop_split : (n k r : ℕ) (xs : Bytes) → n + k ≡ r → drop k (drop n xs) ≡ drop r xs
drop_split zero k r xs e = ap (λ m. drop m xs) (omega arith)
drop_split (suc n) k zero xs e = absurd (omega arith)
drop_split (suc n) zero (suc r) [] e = refl
drop_split (suc n) (suc k) (suc r) [] e = refl
drop_split (suc n) k (suc r) (x ∷ xs) e = drop_split n k r xs (omega arith)

-- Two reads in a row are one read.
read_exact_split :
    (n k r : ℕ) (s : Wire)
    → n + k ≡ r
    → (do front ← read_exact n; back ← read_exact k; pure (front ++ back)) s ≡ read_exact r s
unfolding read_exact
read_exact_split n k r s e =
    let b = s.incoming in
    elim (Bool-cases (ltb (length b) n)) [
      | inl short ↦ rw (short, lt→ltb (length b) r (omega (arith, ltb→lt _ _ short))) refl
      | inr long ↦ elim (Bool-cases (ltb (length (drop n b)) k)) [
        | inl short ↦
            rw (long, short, lt→ltb (length b) r (omega (arith, ltb→lt _ _ short, length-drop n b)))
              refl
        | inr rest ↦
            rw
              (
                long,
                rest,
                le→ltb_false (length b) r (ground (arith, length-drop n b)),
                take_split n k r b e,
                drop_split n k r b e,
              )
              refl
      ]
    ]

read_exact_none : (s : Wire) → read_exact 0 s ≡ (ok [], s)
unfolding read_exact
read_exact_none s = rw (le→ltb_false (length s.incoming) 0 (omega arith)) refl

-- Reading in pieces of any size but none returns what one read would, also where the peer closes
-- the connection too early.
pub read_pieces-read_exact :
    (piece fuel remaining : ℕ) (s : Wire)
    → 0 < piece
    → remaining ≤ fuel
    → read_pieces piece fuel remaining s ≡ read_exact remaining s
unfolding read_pieces
read_pieces-read_exact piece zero remaining s some_bytes enough =
    let none_left : remaining ≡ 0 = omega arith in rw none_left (sym (read_exact_none s))
read_pieces-read_exact piece (suc fuel) zero s some_bytes enough =
    let none_left : ((◌==◌ {A = ℕ} 0 0) ≡ true) = ground arith in
    rw none_left (sym (read_exact_none s))
read_pieces-read_exact piece (suc fuel) (suc left) s some_bytes enough =
    let n = if ltb piece (suc left) then piece else suc left in
    let in_two : n + (suc left - n) ≡ suc left = ground arith in
    let later : (t : Wire) → read_pieces piece fuel (suc left - n) t ≡ read_exact (suc left - n) t =
      λ t. read_pieces-read_exact piece fuel (suc left - n) t some_bytes (ground arith) in
    let some_left : (suc left == 0) ≡ false = ground arith in
    rw (some_left, fun_ext later) (read_exact_split n (suc left - n) (suc left) s in_two)

pub write_frame-eq :
    (payload : Bytes) (w : Wire) → write_frame payload w ≡ (ok tt, sending (message payload) w)
unfolding write_frame write_all
write_frame-eq payload w =
    ap (λ o. (ok tt, record w { outgoing = o }))
      (append_assoc w.outgoing (to_le_bytes 4 (length payload)) payload)

pub read_frame-message :
    (payload rest : Bytes) (r : Wire)
    → length payload ≤ max_frame
    → read_frame (receiving (message payload ++ rest) r) ≡ (ok payload, receiving rest r)
unfolding read_frame
read_frame-message payload rest r small =
    let front = to_le_bytes 4 (length payload) in
    let is_count : from_le_bytes front ≡ length payload =
      from_le_bytes-to_le_bytes 4 (length payload) (omega arith) in
    rw
      (
        append_assoc front payload rest,
        read_exact-append front (payload ++ rest) 4 r (length-to_le_bytes 4 (length payload)),
        is_count,
        le→ltb_false max_frame (length payload) small,
        read_pieces-read_exact read_piece (length payload) (length payload)
            (receiving (payload ++ rest) r) (omega arith) (omega arith),
      )
      (read_exact-append payload rest (length payload) r refl)

-- A frame of at most 64 MiB that write_frame sent is what read_frame at the other end returns,
-- whatever follows it.
read_frame-write_frame :
    (payload rest : Bytes) (w r : Wire)
    → length payload ≤ max_frame
    → w.outgoing ≡ []
    → read_frame (receiving ((write_frame payload w).1.outgoing ++ rest) r)
      ≡ (ok payload, receiving rest r)
read_frame-write_frame payload rest w r small fresh =
    rw (write_frame-eq payload w, fresh) (read_frame-message payload rest r small)
